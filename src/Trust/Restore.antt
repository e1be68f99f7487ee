-- ===== src/Trust/Restore.antt =====
-- `PinStore::load` of crates/meta-text-backend/src/trust.rs: reading the pins back.
use meta_text.Prelude.{
  ℕ, ◌+◌, Bool, true, false, not, ◌&&◌, ◌||◌, List, [], ◌∷◌, Option, none, some, length, leb, ltb,
  ◌==◌, if◌then◌else◌,
}
use meta_text.Prelude.Text.{Text, is_empty}
use meta_text.Prelude.Assoc.{lookup, insert, text_key}
use meta_text.Hex.{Hex}
use meta_text.Trust.{
  Pin, StoredPin, StoredPins, PinStore, pin_capacity, pin_version, fetch_add, normalize_nickname,
  canonical_key,
}

-- What reading and decoding the file gives.
pub data FileRead : Type 0 where
  not_found unreadable malformed : FileRead
  parsed : StoredPins → FileRead

abbrev pub is_some {ℓ} : {A : Type ℓ} → Option A → Bool
is_some none = false
is_some (some a) = true

pub record Restored : Type 0 where
  pub pins : List (Text × Pin)
  pub dropped : ℕ

-- a store with a path, over the file `on_disk`
abbrev pub with_path : Option StoredPins → Bool → PinStore
with_path on_disk has_path = record {
  has_path = has_path;
  pins = [];
  changed = 0;
  refused = 0;
  file = on_disk;
  attempts = 0;
}

file_of : FileRead → Option StoredPins
file_of (parsed stored) = some stored
file_of _ = none

-- the table that was read, and the count of what was left out
unfoldable pub adopt : Restored → PinStore → PinStore
adopt r s =
    if ltb 0 r.dropped
    then record s { pins = r.pins; refused = fetch_add s.refused r.dropped }
    else record s { pins = r.pins }

module _ (hex : Hex) (to_lowercase : Text → Text) where
  unfoldable pub restore_key : StoredPin → Text → Option Text → Restored → Restored
  restore_key pin name none r = record r { dropped = r.dropped + 1 }
  restore_key pin name (some key) r =
      if is_empty name || (leb pin_capacity (length r.pins) && not (is_some (lookup name r.pins)))
      then record r { dropped = r.dropped + 1 }
      else record r {
        pins =
            insert name
              (record {
                public_key = key;
                first_seen_unix_ms = pin.first_seen_unix_ms;
                changed = false;
                change_written = false;
              })
              r.pins;
      }

  unfoldable pub restore_pin : StoredPin → Restored → Restored
  unfolding restore_key
  restore_pin pin r =
      restore_key pin (normalize_nickname to_lowercase pin.nickname)
        (canonical_key hex pin.public_key) r

  -- the loop over the stored pins
  unfoldable pub restore_pins : List StoredPin → Restored → Restored
  restore_pins [] r = r
  restore_pins (pin ∷ pins) r = restore_pins pins (restore_pin pin r)

  unfoldable pub restore : FileRead → PinStore → PinStore
  unfolding adopt
  restore (parsed stored) s =
      if stored.version == pin_version
      then adopt (restore_pins stored.pins (record { pins = s.pins; dropped = 0 })) s
      else s
  restore _ s = s

  unfoldable pub load : FileRead → PinStore
  unfolding restore file_of adopt
  load read = restore read (with_path (file_of read) true)
