-- ===== src/Trust.antt =====
-- crates/meta-text-backend/src/trust.rs: trust on first use for the identities that peers announce.
-- `str::to_lowercase` (the Unicode tables) and the crate `hex` are parameters. The table is an
-- association list; the file is the last state that was published, and the file system decides, for
-- each attempt to write, whether it succeeds.
pub mod Restore
pub mod Table
pub mod Observe
pub mod Writes
pub mod Restart
mod Tests
use meta_text.Prelude.{
  ℕ, ◌+◌, ◌%◌, ◌^◌, Bool, true, false, not, ◌&&◌, ◌||◌, List, [], ◌∷◌, map, Option, none, some,
  length, leb, ltb, ◌==◌, if◌then◌else◌,
}
use meta_text.Prelude.Text.{Text, is_empty, trim, text_eq}
use meta_text.Prelude.Assoc.{lookup, insert, text_key}
use meta_text.Hex.{Hex}

-- identity.rs
abbrev pub public_key_length : ℕ
public_key_length = 32

abbrev pub pin_version : ℕ
pin_version = 1

abbrev pub pin_capacity : ℕ
pin_capacity = 1024

pub data PinOutcome : Type 0 where
  first_seen known : PinOutcome
  changed : Text → PinOutcome
  refused : PinOutcome

pub record Pin : Type 0 where
  pub public_key : Text
  pub first_seen_unix_ms : ℕ
  pub changed : Bool
  pub change_written : Bool

pub record StoredPin : Type 0 where
  pub nickname : Text
  pub public_key : Text
  pub first_seen_unix_ms : ℕ

pub record StoredPins : Type 0 where
  pub version : ℕ
  pub pins : List StoredPin

-- `attempts` counts the writes that were tried.
pub record PinStore : Type 0 where
  pub has_path : Bool
  pub pins : List (Text × Pin)
  pub changed : ℕ
  pub refused : ℕ
  pub file : Option StoredPins
  pub attempts : ℕ

-- an `AtomicU64`
abbrev pub fetch_add : ℕ → ℕ → ℕ
fetch_add counter n = (counter + n) % 2 ^ 64

-- `left.cmp(right)` of two nicknames, by the code points
text_leb : Text → Text → Bool
text_leb [] t = true
text_leb (c ∷ s) [] = false
text_leb (c ∷ s) (d ∷ t) = ltb c d || (c == d && text_leb s t)

pub stored_pin : Text × Pin → StoredPin
stored_pin (nickname, pin) = record {
  nickname = nickname;
  public_key = pin.public_key;
  first_seen_unix_ms = pin.first_seen_unix_ms;
}

pub insert_sorted : StoredPin → List StoredPin → List StoredPin
unfolding text_leb
insert_sorted p [] = p ∷ []
insert_sorted p (q ∷ qs) =
    let rest = insert_sorted p qs in if text_leb p.nickname q.nickname then p ∷ q ∷ qs else q ∷ rest

-- `sort_by` on nicknames
pub sort_pins : List StoredPin → List StoredPin
unfolding insert_sorted
sort_pins [] = []
sort_pins (p ∷ ps) = insert_sorted p (sort_pins ps)

pub snapshot : PinStore → StoredPins
unfolding sort_pins stored_pin
snapshot s = record { version = pin_version; pins = sort_pins (map stored_pin s.pins) }

-- The file system: whether the n-th attempt to publish succeeds.
pub persist : (ℕ → Bool) → PinStore → PinStore
persist publishes s =
    if s.has_path
    then record s {
      file = if publishes s.attempts then some (snapshot s) else s.file;
      attempts = s.attempts + 1;
    }
    else s

pub normalize_nickname : (Text → Text) → Text → Text
normalize_nickname to_lowercase nickname = to_lowercase (trim nickname)

module _ (hex : Hex) where
  -- `bytes.try_into()`
  unfoldable pub try_into_key : Option (List ℕ) → Option (List ℕ)
  try_into_key none = none
  try_into_key (some bytes) = if length bytes == public_key_length then some bytes else none

  unfoldable pub public_key_from_hex : Text → Option (List ℕ)
  unfolding try_into_key
  public_key_from_hex public = try_into_key (hex.decode (trim public))

  -- `public_key_from_hex(key).map(hex::encode_upper)`
  canonical_of : Option (List ℕ) → Option Text
  canonical_of none = none
  canonical_of (some key) = some (hex.encode_upper key)

  pub canonical_key : Text → Option Text
  unfolding canonical_of
  canonical_key key = canonical_of (public_key_from_hex key)

module _ (now_ms : ℕ) (nickname key : Text) where
  -- the decision under the table's lock: the outcome, whether to write, and the table
  pub decide : Option Pin → List (Text × Pin) → PinOutcome × Bool × List (Text × Pin)
  decide (some pin) pins = if text_eq pin.public_key key then (known, false, pins) else (
    changed pin.public_key,
    not pin.change_written,
    insert nickname (record pin { public_key = key; changed = true; change_written = true }) pins,
  )
  decide none pins = if leb pin_capacity (length pins) then (refused, false, pins) else (
    first_seen,
    true,
    insert nickname
        (record {
          public_key = key;
          first_seen_unix_ms = now_ms;
          changed = false;
          change_written = false;
        })
        pins,
  )

module _ (publishes : ℕ → Bool) where
  -- the counters and the file, after the lock is released
  pub settle : PinOutcome → Bool → PinStore → PinStore
  settle known write s = s
  settle refused write s = record s { refused = fetch_add s.refused 1 }
  settle first_seen write s = if write then persist publishes s else s
  settle (changed previous) write s =
      let counted : PinStore = record s { changed = fetch_add s.changed 1 } in
      if write then persist publishes counted else counted

module _ (hex : Hex) (to_lowercase : Text → Text) (publishes : ℕ → Bool) where
  pub observe_key : ℕ → Text → Option Text → PinStore → PinOutcome × PinStore
  observe_key now_ms nickname none s = (refused, record s { refused = fetch_add s.refused 1 })
  observe_key now_ms nickname (some key) s =
      let (outcome, write, pins) = decide now_ms nickname key (lookup nickname s.pins) s.pins in
      (outcome, settle publishes outcome write (record s { pins = pins }))

  pub observe : ℕ → Text → Text → PinStore → PinOutcome × PinStore
  unfolding observe_key
  observe now_ms nickname public_key s =
      let name = normalize_nickname to_lowercase nickname in
      if is_empty name
      then (refused, record s { refused = fetch_add s.refused 1 })
      else observe_key now_ms name (canonical_key hex public_key) s

abbrev pub key_of : Option Pin → Option Text
key_of none = none
key_of (some pin) = some pin.public_key

pub pinned : (Text → Text) → Text → PinStore → Option Text
pinned to_lowercase nickname s = key_of (lookup (normalize_nickname to_lowercase nickname) s.pins)
