-- ===== src/Trust/Observe.antt =====
-- What an announcement does to the pins, seen as a partial map from names to keys.
use meta_text.Prelude.{
  ℕ, ◌≡◌, ◌≢◌, refl, ap, ◌∙◌, Bool, true, false, List, [], ◌∷◌, Option, none, some, length, leb,
  Bool-cases, Option-cases, if◌then◌else◌, All, inl, inr, arith,
}
use meta_text.Prelude.Text.{Text, is_empty, text_eq}
use meta_text.Prelude.Text.Case.{text_eq_iff, text_eq_refl}
use meta_text.Prelude.Assoc.{lookup, lookup-insert, text_key}
use meta_text.Hex.{Hex}
use meta_text.Trust.{
  Pin, PinStore, PinOutcome, first_seen, known, changed, refused, pin_capacity, normalize_nickname,
  canonical_key, decide, observe, key_of, pinned,
}
use meta_text.Trust.Table.{pins-settle}

-- The outcome that the documentation promises, from what was pinned before.
abbrev pub promised : Option Text → Text → Bool → PinOutcome
promised (some old) key full = if text_eq old key then known else changed old
promised none key full = if full then refused else first_seen

abbrev pub is_refused : PinOutcome → Bool
is_refused refused = true
is_refused _ = false

module _ (now_ms : ℕ) (name key : Text) where
  decide-promised :
      (found : Option Pin) (pins : List (Text × Pin))
      → (decide now_ms name key found pins).0
        ≡ promised (key_of found) key (leb pin_capacity (length pins))
  unfolding decide
  decide-promised (some pin) pins = ground arith
  decide-promised none pins = ground arith

  decide-lookup :
      (found : Option Pin) (pins : List (Text × Pin)) (j : Text)
      → found ≡ lookup name pins
      → key_of (lookup j (decide now_ms name key found pins).2) ≡ (
          if is_refused (decide now_ms name key found pins).0
          then key_of (lookup j pins)
          else if text_eq name j
          then some key
          else key_of (lookup j pins))
  unfolding decide
  decide-lookup (some pin) pins j e = ground (
    arith,
    e,
    lookup-insert name j (record pin { public_key = key; changed = true; change_written = true })
        pins,
    text_eq_iff name j,
    text_eq_iff pin.public_key key,
  )
  decide-lookup none pins j e = ground (
    arith,
    e,
    lookup-insert name j
        (record {
          public_key = key;
          first_seen_unix_ms = now_ms;
          changed = false;
          change_written = false;
        })
        pins,
  )

module _ (hex : Hex) (to_lowercase : Text → Text) (publishes : ℕ → Bool) where
  -- A usable announcement has the promised outcome, and unless it was refused its key is what is
  -- pinned for its name from now on; the pins of all other names are as before.
  pub observe-pinned :
      (now_ms : ℕ) (nickname announced key other : Text) (s : PinStore)
      → is_empty (normalize_nickname to_lowercase nickname) ≡ false
      → canonical_key hex announced ≡ some key
      → ((observe hex to_lowercase publishes now_ms nickname announced s).0
          ≡ promised (pinned to_lowercase nickname s) key (leb pin_capacity (length s.pins)))
        × (pinned to_lowercase other
              (observe hex to_lowercase publishes now_ms nickname announced s).1
            ≡ (if is_refused (observe hex to_lowercase publishes now_ms nickname announced s).0
                then pinned to_lowercase other s
                else if text_eq
                    (normalize_nickname to_lowercase nickname)
                    (normalize_nickname to_lowercase other)
                then some key
                else pinned to_lowercase other s))
  unfolding observe pinned
  observe-pinned now_ms nickname announced key other s named usable =
      let name = normalize_nickname to_lowercase nickname in
      let j = normalize_nickname to_lowercase other in
      let found = lookup name s.pins in
      let (outcome, write, pins) = decide now_ms name key found s.pins in
      let kept = pins-settle publishes outcome write (record s { pins = pins }) in
      rw (named, usable)
        (
          decide-promised now_ms name key found s.pins,
          ap (λ t. key_of (lookup j t)) kept ∙ decide-lookup now_ms name key found s.pins j refl,
        )

-- What a peer announces, and when.
pub record Announcement : Type 0 where
  pub now_ms : ℕ
  pub nickname : Text
  pub public_key : Text

module _ (hex : Hex) (to_lowercase : Text → Text) (publishes : ℕ → Bool) where
  abbrev pub observe_all : List Announcement → PinStore → PinStore
  observe_all [] s = s
  observe_all (a ∷ rest) s =
      observe_all rest (observe hex to_lowercase publishes a.now_ms a.nickname a.public_key s).1

  -- The announcement is under another name, up to case and surrounding white space.
  abbrev pub IsOther : Text → Announcement → Type 0
  IsOther nickname a =
      text_eq (normalize_nickname to_lowercase a.nickname)
        (normalize_nickname to_lowercase nickname)
      ≡ false

  observe-IsOther :
      (nickname : Text) (a : Announcement) (s : PinStore)
      → IsOther nickname a
      → pinned to_lowercase nickname
          (observe hex to_lowercase publishes a.now_ms a.nickname a.public_key s).1
        ≡ pinned to_lowercase nickname s
  unfolding pinned
  observe-IsOther nickname a s other =
      let name = normalize_nickname to_lowercase a.nickname in
      elim (Bool-cases (is_empty name)) [
        | inl blank ↦ unfold observe in rw blank refl
        | inr named ↦ elim (Option-cases (canonical_key hex a.public_key)) [
          | inl unusable ↦ unfold observe in rw (named, unusable) refl
          | inr (key, usable) ↦
              (observe-pinned hex to_lowercase publishes a.now_ms a.nickname a.public_key key
                nickname s named usable).1
              ∙ ground arith
        ]
      ]

  observe_all-IsOther :
      (nickname : Text) (others : List Announcement) (s : PinStore)
      → All (IsOther nickname) others
      → pinned to_lowercase nickname (observe_all others s) ≡ pinned to_lowercase nickname s
  observe_all-IsOther nickname [] s away = refl
  observe_all-IsOther nickname (a ∷ rest) s (other, away) =
      observe_all-IsOther nickname rest _ away ∙ observe-IsOther nickname a s other

  pinned-same :
      (nickname other : Text)
      → normalize_nickname to_lowercase nickname ≡ normalize_nickname to_lowercase other
      → (s : PinStore) → pinned to_lowercase nickname s ≡ pinned to_lowercase other s
  unfolding pinned
  pinned-same nickname other same s = ap (λ n. key_of (lookup n s.pins)) same

  -- Whatever other peers announce in between, a peer that was pinned with one key and later
  -- announces another one under the same name is reported as changed, with the key that was pinned.
  pub observe_detects_change :
      (first second : Announcement) (others : List Announcement) (key new_key : Text) (s : PinStore)
      → is_empty (normalize_nickname to_lowercase first.nickname) ≡ false
      → normalize_nickname to_lowercase second.nickname
        ≡ normalize_nickname to_lowercase first.nickname
      → canonical_key hex first.public_key ≡ some key
      → canonical_key hex second.public_key ≡ some new_key
      → key ≢ new_key
      → is_refused
          (observe hex to_lowercase publishes first.now_ms first.nickname first.public_key s).0
        ≡ false
      → All (IsOther first.nickname) others
      → (observe hex to_lowercase publishes second.now_ms second.nickname second.public_key (
          observe_all others
            (observe hex to_lowercase publishes first.now_ms first.nickname first.public_key
              s).1)).0
        ≡ changed key
  observe_detects_change first second others key new_key s named same usable usable' differ kept
        away =
      let s1 =
        (observe hex to_lowercase publishes first.now_ms first.nickname first.public_key s).1 in
      let s2 = observe_all others s1 in
      let name = normalize_nickname to_lowercase first.nickname in
      let full = leb pin_capacity (length s2.pins) in
      let pinned_first : pinned to_lowercase first.nickname s1 ≡ some key =
        (observe-pinned hex to_lowercase publishes first.now_ms first.nickname first.public_key key
          first.nickname s named usable).1
        ∙ rw (kept, text_eq_refl) refl in
      let still : pinned to_lowercase second.nickname s2 ≡ some key =
        pinned-same second.nickname first.nickname same s2
        ∙ observe_all-IsOther first.nickname others s1 away
        ∙ pinned_first in
      (observe-pinned hex to_lowercase publishes second.now_ms second.nickname second.public_key
        new_key second.nickname s2 (rw same named) usable').0
      ∙ ap (λ o. promised o new_key full) still
      ∙ ground (arith, differ, text_eq_iff key new_key)
