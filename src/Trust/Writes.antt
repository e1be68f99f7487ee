-- ===== src/Trust/Writes.antt =====
-- How often the pin file is written.
use meta_text.Prelude.{
  ℕ, ◌+◌, ◌*◌, ◌≤◌, ◌≡◌, refl, Bool, true, false, List, [], ◌∷◌, Option, none, some, length,
  Bool-cases, inl, inr, arith,
}
use meta_text.Prelude.Text.{Text, is_empty, text_eq}
use meta_text.Prelude.Assoc.{lookup, insert, length-insert, text_key}
use meta_text.Hex.{Hex}
use meta_text.Trust.{
  Pin, PinStore, PinOutcome, first_seen, known, changed, refused, pin_capacity, normalize_nickname,
  canonical_key, decide, observe, observe_key, settle, persist,
}
use meta_text.Trust.Restore.{FileRead, parsed, adopt, load, restore}
use meta_text.Trust.Table.{IsWellFormed, pins-settle, observe-IsWellFormed, load-IsWellFormed}
use meta_text.Trust.Observe.{Announcement, observe_all}

-- How many names have had their one written change.
abbrev bit : Bool → ℕ
bit true = 1
bit false = 0

abbrev changes_written : List (Text × Pin) → ℕ
changes_written [] = 0
changes_written ((name, pin) ∷ pins) = bit pin.change_written + changes_written pins

changes_written-insert_known :
    (name : Text) (old pin : Pin) (pins : List (Text × Pin))
    → lookup name pins ≡ some old
    → changes_written (insert name pin pins) + bit old.change_written
      ≡ changes_written pins + bit pin.change_written
unfolding lookup insert
changes_written-insert_known name old pin [] h = cc
changes_written-insert_known name old pin ((j, p) ∷ pins) h = elim (Bool-cases (text_eq j name)) [
  | inl same ↦ let e : p ≡ old = ground arith in rw (same, e) (omega arith)
  | inr other ↦
      rw other (omega (arith, changes_written-insert_known name old pin pins (ground arith)))
]

changes_written-insert_new :
    (name : Text) (pin : Pin) (pins : List (Text × Pin))
    → lookup name pins ≡ none
    → changes_written (insert name pin pins) ≡ changes_written pins + bit pin.change_written
unfolding lookup insert
changes_written-insert_new name pin [] h = omega arith
changes_written-insert_new name pin ((j, p) ∷ pins) h = elim (Bool-cases (text_eq j name)) [
  | inl same ↦ ground arith
  | inr other ↦ rw other (omega (arith, changes_written-insert_new name pin pins (ground arith)))
]

changes_written-le-length : (pins : List (Text × Pin)) → changes_written pins ≤ length pins
changes_written-le-length [] = omega arith
changes_written-le-length ((name, pin) ∷ pins) = elim (Bool-cases pin.change_written) [
  | inl yes_written ↦ rw yes_written (omega (arith, changes_written-le-length pins))
  | inr not_written ↦ rw not_written (omega (arith, changes_written-le-length pins))
]

-- Each write is paid for by a new name, or by the one written change of a name.
abbrev IsPaid : PinStore → Type 0
IsPaid s = s.attempts ≤ length s.pins + changes_written s.pins

module _ (now_ms : ℕ) (name key : Text) where
  decide-pays :
      (found : Option Pin) (pins : List (Text × Pin))
      → found ≡ lookup name pins
      → length pins + changes_written pins + bit (decide now_ms name key found pins).1
        ≤ length (decide now_ms name key found pins).2
          + changes_written (decide now_ms name key found pins).2
  unfolding decide
  decide-pays (some pin) pins e =
      let new : Pin = record pin { public_key = key; changed = true; change_written = true } in
      ground (arith, e, length-insert name new pins, changes_written-insert_known name pin new pins)
  decide-pays none pins e =
      let new : Pin = record {
        public_key = key;
        first_seen_unix_ms = now_ms;
        changed = false;
        change_written = false;
      } in
      ground (arith, e, length-insert name new pins, changes_written-insert_new name new pins)

module _ (publishes : ℕ → Bool) where
  attempts-settle :
      (outcome : PinOutcome) (write : Bool) (s : PinStore)
      → (settle publishes outcome write s).attempts ≤ s.attempts + bit write
  unfolding settle persist
  attempts-settle first_seen write s = ground arith
  attempts-settle known write s = ground arith
  attempts-settle (changed previous) write s = ground arith
  attempts-settle refused write s = ground arith

module _ (hex : Hex) (to_lowercase : Text → Text) (publishes : ℕ → Bool) where
  observe_key-IsPaid :
      (now_ms : ℕ) (name : Text) (canonical : Option Text) (s : PinStore)
      → IsPaid s
      → IsPaid (observe_key hex to_lowercase publishes now_ms name canonical s).1
  unfolding observe_key
  observe_key-IsPaid now_ms name none s paid = paid
  observe_key-IsPaid now_ms name (some key) s paid =
      let (outcome, write, pins) = decide now_ms name key (lookup name s.pins) s.pins in
      let mid : PinStore = record s { pins = pins } in
      let kept = pins-settle publishes outcome write mid in
      let count = attempts-settle publishes outcome write mid in
      let more = decide-pays now_ms name key (lookup name s.pins) s.pins refl in
      rw kept (omega (arith, paid, count, more))

  observe-IsPaid :
      (a : Announcement) (s : PinStore)
      → IsPaid s
      → IsPaid (observe hex to_lowercase publishes a.now_ms a.nickname a.public_key s).1
  unfolding observe
  observe-IsPaid a s paid =
      let name = normalize_nickname to_lowercase a.nickname in
      elim (Bool-cases (is_empty name)) [
        | inl blank ↦ rw blank paid
        | inr named ↦
            rw named (observe_key-IsPaid a.now_ms name (canonical_key hex a.public_key) s paid)
      ]

  observe_all-IsPaid :
      (announced : List Announcement) (s : PinStore)
      → IsWellFormed hex to_lowercase s
      → IsPaid s
      → (observe_all hex to_lowercase publishes announced s).attempts ≤ 2 * pin_capacity
  observe_all-IsPaid [] s t paid = omega (arith, t.bounded, paid, changes_written-le-length s.pins)
  observe_all-IsPaid (a ∷ rest) s t paid =
      observe_all-IsPaid rest _
        (observe-IsWellFormed hex to_lowercase publishes a.now_ms a.nickname a.public_key s t)
        (observe-IsPaid a s paid)

  attempts-load : (read : FileRead) → (load hex to_lowercase read).attempts ≡ 0
  unfolding load restore adopt
  attempts-load (parsed stored) = ground arith
  attempts-load _ = refl

  -- However many announcements a run receives, and whatever file it started from, the pin file is
  -- written at most twice for each of the `pin_capacity` names that the table can hold.
  pub observe_all-attempts :
      (announced : List Announcement) (read : FileRead)
      → (observe_all hex to_lowercase publishes announced (load hex to_lowercase read)).attempts
        ≤ 2 * pin_capacity
  observe_all-attempts announced read =
      observe_all-IsPaid announced (load hex to_lowercase read)
        (load-IsWellFormed hex to_lowercase read) (omega (arith, attempts-load read))
