-- ===== src/Trust/Table.antt =====
-- The invariant of the pin table, which every operation keeps and every file gives.
use mathlib.Core.Path.{subst}
use meta_text.Prelude.{
  ℕ, ◌≤◌, ◌≡◌, refl, sym, ◌⊎◌, inl, inr, Bool, true, false, not, ◌&&◌, ltb, ◌==◌, List, [], ◌∷◌,
  Option, none, some, length, leb, Bool-cases, arith,
}
use meta_text.Prelude.Text.{Text, is_empty, text_eq}
use meta_text.Prelude.Assoc.{lookup, insert, length-insert, text_key}
use meta_text.Prelude.Assoc.Distinct.{Distinct, Entries, insert-Distinct, insert-Entries}
use meta_text.Hex.{Hex}
use meta_text.Trust.{
  Pin, StoredPin, PinStore, PinOutcome, first_seen, changed, pin_capacity, pin_version,
  normalize_nickname, canonical_key, decide, observe, observe_key, settle, persist,
}
use meta_text.Trust.Restore.{
  Restored, FileRead, parsed, restore_key, restore_pin, restore_pins, adopt, is_some, with_path,
  load,
}

-- The counters and the file leave the table alone.
module _ (publishes : ℕ → Bool) where
  pub pins-settle :
      (outcome : PinOutcome) (write : Bool) (s : PinStore)
      → (settle publishes outcome write s).pins ≡ s.pins
  unfolding settle persist
  pins-settle first_seen write s = ground arith
  pins-settle (changed previous) write s = ground arith
  pins-settle _ write s = refl

is_some-eq_true {ℓ} : {A : Type ℓ} (o : Option A) → is_some o ≡ true → (a : A) × (o ≡ some a)
is_some-eq_true (some a) h = (a, refl)
is_some-eq_true none h = cc

-- The table is full and the name is not in it.
abbrev crowded : Text → Restored → Bool
crowded name r = leb pin_capacity (length r.pins) && not (is_some (lookup name r.pins))

module _ (hex : Hex) (to_lowercase : Text → Text) where
  -- A name that some nickname normalises to and that is not empty, with a key in canonical form.
  abbrev pub IsPinned : Text → Pin → Type 0
  IsPinned name pin =
      (is_empty name ≡ false)
      × ((nickname : Text) × (name ≡ normalize_nickname to_lowercase nickname))
      × ((key : Text) × (canonical_key hex key ≡ some pin.public_key))

  pub record IsTable (pins : List (Text × Pin)) : Type 0 where
    pub bounded : length pins ≤ pin_capacity
    pub distinct : Distinct pins
    pub entries : Entries IsPinned pins

  insert-IsTable :
      (name : Text) (pin : Pin) (pins : List (Text × Pin))
      → IsTable pins
      → IsPinned name pin
      → (leb pin_capacity (length pins) ≡ false) ⊎ ((old : Pin) × (lookup name pins ≡ some old))
      → IsTable (insert name pin pins)
  insert-IsTable name pin pins t ok room = record {
    bounded = elim room [
      | inl free ↦ ground (arith, length-insert name pin pins, t.bounded)
      | inr (old, e) ↦ ground (arith, length-insert name pin pins, t.bounded)
    ];
    distinct = insert-Distinct name pin pins t.distinct;
    entries = insert-Entries IsPinned name pin pins ok t.entries;
  }

  -- A store whose table is well formed.
  abbrev pub IsWellFormed : PinStore → Type 0
  IsWellFormed s = IsTable s.pins

  decide-IsTable :
      (now_ms : ℕ) (name key announced : Text) (found : Option Pin) (pins : List (Text × Pin))
      → IsTable pins
      → found ≡ lookup name pins
      → is_empty name ≡ false
      → (nickname : Text) → name ≡ normalize_nickname to_lowercase nickname
      → canonical_key hex announced ≡ some key
      → IsTable (decide now_ms name key found pins).2
  unfolding decide
  decide-IsTable now_ms name key announced (some pin) pins t found named nickname is usable =
      elim (Bool-cases (text_eq pin.public_key key)) [
        | inl same ↦ rw same t
        | inr new ↦ rw new (
            insert-IsTable name _ pins t (named, (nickname, is), (announced, usable))
              (inr (pin, sym found)))
      ]
  decide-IsTable now_ms name key announced none pins t found named nickname is usable =
      elim (Bool-cases (leb pin_capacity (length pins))) [
        | inl full ↦ rw full t
        | inr free ↦
            rw free
              (insert-IsTable name _ pins t (named, (nickname, is), (announced, usable)) (inl free))
      ]

  module _ (publishes : ℕ → Bool) where
    observe_key-IsTable :
        (now_ms : ℕ) (name announced nickname : Text) (canonical : Option Text) (s : PinStore)
        → IsTable s.pins
        → is_empty name ≡ false
        → name ≡ normalize_nickname to_lowercase nickname
        → canonical_key hex announced ≡ canonical
        → IsTable (observe_key hex to_lowercase publishes now_ms name canonical s).1.pins
    unfolding observe_key
    observe_key-IsTable now_ms name announced nickname none s t named is usable = t
    observe_key-IsTable now_ms name announced nickname (some key) s t named is usable =
        let (outcome, write, pins) = decide now_ms name key (lookup name s.pins) s.pins in
        subst IsTable (sym (pins-settle publishes outcome write (record s { pins = pins }))) (
          decide-IsTable now_ms name key announced (lookup name s.pins) s.pins t refl named nickname
            is usable)

    -- No announcement, whatever it holds, takes the table out of its invariant: at most
    -- `pin_capacity` names, each once, none empty, each with a canonical key.
    pub observe-IsWellFormed :
        (now_ms : ℕ) (nickname key : Text) (s : PinStore)
        → IsWellFormed s
        → IsWellFormed (observe hex to_lowercase publishes now_ms nickname key s).1
    unfolding observe
    observe-IsWellFormed now_ms nickname key s t =
        let name = normalize_nickname to_lowercase nickname in
        elim (Bool-cases (is_empty name)) [
          | inl blank ↦ rw blank t
          | inr named ↦ rw named (
              observe_key-IsTable now_ms name key nickname (canonical_key hex key) s t named refl
                refl)
        ]

  room :
      (name : Text) (r : Restored)
      → crowded name r ≡ false
      → (leb pin_capacity (length r.pins) ≡ false) ⊎ ((old : Pin) × (lookup name r.pins ≡ some old))
  room name r free = elim (Bool-cases (leb pin_capacity (length r.pins))) [
    | inr below ↦ inl below
    | inl full ↦ inr (is_some-eq_true (lookup name r.pins) (ground arith))
  ]

  restore_pin-IsTable :
      (pin : StoredPin) (r : Restored)
      → IsTable r.pins
      → IsTable (restore_pin hex to_lowercase pin r).pins
  unfolding restore_pin
  restore_pin-IsTable pin r t = restore_key-IsTable (canonical_key hex pin.public_key) refl
    where
      name : Text
      name = normalize_nickname to_lowercase pin.nickname

      restore_key-IsTable :
          (canonical : Option Text)
          → canonical_key hex pin.public_key ≡ canonical
          → IsTable (restore_key hex to_lowercase pin name canonical r).pins
      restore_key-IsTable none e = t
      restore_key-IsTable (some key) e = elim (Bool-cases (is_empty name)) [
        | inl blank ↦ rw blank t
        | inr named ↦ rw named (elim (Bool-cases (crowded name r)) [
          | inl full ↦ rw full t
          | inr free ↦ rw free (
              insert-IsTable name _ r.pins t (named, (pin.nickname, refl), (pin.public_key, e))
                (room name r free))
        ])
      ]

  restore_pins-IsTable :
      (pins : List StoredPin) (r : Restored)
      → IsTable r.pins
      → IsTable (restore_pins hex to_lowercase pins r).pins
  unfolding restore_pins
  restore_pins-IsTable [] r t = t
  restore_pins-IsTable (pin ∷ pins) r t =
      restore_pins-IsTable pins (restore_pin hex to_lowercase pin r) (restore_pin-IsTable pin r t)

  empty-IsTable : IsTable []
  empty-IsTable = record { bounded = omega arith; distinct = tt; entries = tt }

  adopt-IsTable : (r : Restored) (s : PinStore) → IsTable r.pins → IsTable (adopt r s).pins
  unfolding adopt
  adopt-IsTable r s t = elim (Bool-cases (ltb 0 r.dropped)) [
    | inl some_left ↦ rw some_left t
    | inr none_left ↦ rw none_left t
  ]

  -- Whatever is found on disk, the store that is loaded satisfies the invariant.
  pub load-IsWellFormed : (read : FileRead) → IsWellFormed (load hex to_lowercase read)
  unfolding load
  load-IsWellFormed (parsed stored) = elim (Bool-cases (stored.version == pin_version)) [
    | inl known_layout ↦ rw known_layout (
        adopt-IsTable _ (with_path (some stored) true)
          (restore_pins-IsTable stored.pins _ empty-IsTable))
    | inr other ↦ rw other empty-IsTable
  ]
  load-IsWellFormed _ = empty-IsTable
