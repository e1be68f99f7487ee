-- ===== src/Trust/Restart.antt =====
-- What survives a restart: the pins that were published are the pins that are read back.
use mathlib.Core.Path.{subst}
use meta_text.Prelude.{
  suc, ◌==◌, ◌+◌, ◌≤◌, ◌<◌, ◌≡◌, refl, sym, ap, ◌∙◌, true, false, List, [], ◌∷◌, map, Option, none,
  some, length, leb, Bool-cases, Option-cases, if◌then◌else◌, All, inl, inr, arith,
}
use meta_text.Prelude.Text.{Text, is_empty, text_eq, trim}
use meta_text.Prelude.Text.Trim.{trim_id}
use meta_text.Prelude.Text.Case.{text_eq_iff}
use meta_text.Prelude.Assoc.{lookup, insert, lookup-insert, length-insert, text_key}
use meta_text.Prelude.Assoc.Distinct.{Distinct, Entries}
use meta_text.Hex.{Hex, HexLaws}
use meta_text.Trust.{
  Pin, StoredPin, PinStore, pin_capacity, normalize_nickname, canonical_key, public_key_from_hex,
  key_of, pinned, stored_pin, sort_pins, insert_sorted, text_leb, snapshot,
}
use meta_text.Trust.Restore.{Restored, parsed, adopt, load, restore, restore_pin, restore_pins}
use meta_text.Trust.Table.{IsPinned, IsWellFormed}

-- The key stored for a name, in a list of stored pins.
abbrev stored_key : Text → List StoredPin → Option Text
stored_key j [] = none
stored_key j (p ∷ ps) = if text_eq p.nickname j then some p.public_key else stored_key j ps

abbrev DistinctPins : List StoredPin → Type 0
DistinctPins [] = Unit
DistinctPins (p ∷ ps) = (stored_key p.nickname ps ≡ none) × DistinctPins ps

-- Sorting

stored_key-insert_sorted :
    (p : StoredPin) (ps : List StoredPin) (j : Text)
    → stored_key p.nickname ps ≡ none
    → stored_key j (insert_sorted p ps)
      ≡ (if text_eq p.nickname j then some p.public_key else stored_key j ps)
unfolding insert_sorted
stored_key-insert_sorted p [] j fresh = refl
stored_key-insert_sorted p (q ∷ qs) j fresh = ground (
  arith,
  text_eq_iff p.nickname j,
  text_eq_iff q.nickname j,
  text_eq_iff q.nickname p.nickname,
  stored_key-insert_sorted p qs j,
)

insert_sorted-DistinctPins :
    (p : StoredPin) (ps : List StoredPin)
    → stored_key p.nickname ps ≡ none
    → DistinctPins ps
    → DistinctPins (insert_sorted p ps)
unfolding insert_sorted
insert_sorted-DistinctPins p [] fresh d = (refl, tt)
insert_sorted-DistinctPins p (q ∷ qs) fresh (fresh', d) = ground (
  arith,
  fresh,
  fresh',
  d,
  text_eq_iff p.nickname q.nickname,
  text_eq_iff q.nickname p.nickname,
  stored_key-insert_sorted p qs q.nickname,
  insert_sorted-DistinctPins p qs,
)

stored_key-sort_pins :
    (ps : List StoredPin)
    → DistinctPins ps
    → DistinctPins (sort_pins ps) × ((j : Text) → stored_key j (sort_pins ps) ≡ stored_key j ps)
unfolding sort_pins
stored_key-sort_pins [] d = (tt, λ j. refl)
stored_key-sort_pins (p ∷ ps) (fresh, d) =
    let (sorted, same) = stored_key-sort_pins ps d in
    let fresh' = same p.nickname ∙ fresh in
    (
      insert_sorted-DistinctPins p (sort_pins ps) fresh' sorted,
      λ j. stored_key-insert_sorted p (sort_pins ps) j fresh' ∙ rw (same j) refl,
    )

insert_sorted-All :
    (P : StoredPin → Type 0) (p : StoredPin) (ps : List StoredPin)
    → P p
    → All P ps
    → All P (insert_sorted p ps) × (length (insert_sorted p ps) ≡ length ps + 1)
unfolding insert_sorted
insert_sorted-All P p [] h hs = ((h, tt), omega arith)
insert_sorted-All P p (q ∷ qs) h (hq, hs) = elim (Bool-cases (text_leb p.nickname q.nickname)) [
  | inl before ↦ rw before ((h, (hq, hs)), omega arith)
  | inr after ↦
      let (later, long) = insert_sorted-All P p qs h hs in
      rw after ((hq, later), omega (arith, long))
]

sort_pins-All :
    (P : StoredPin → Type 0) (ps : List StoredPin)
    → All P ps
    → All P (sort_pins ps) × (length (sort_pins ps) ≡ length ps)
unfolding sort_pins
sort_pins-All P [] hs = (tt, refl)
sort_pins-All P (p ∷ ps) (h, hs) =
    let (later, same) = sort_pins-All P ps hs in
    let (all, long) = insert_sorted-All P p (sort_pins ps) h later in
    (all, omega (arith, same, long))

-- Reading back

module _ (hex : Hex) (to_lowercase : Text → Text) where
  -- A stored pin that is read back as it stands.
  abbrev IsUsable : StoredPin → Type 0
  IsUsable p =
      (is_empty p.nickname ≡ false)
      × (normalize_nickname to_lowercase p.nickname ≡ p.nickname)
      × (canonical_key hex p.public_key ≡ some p.public_key)

  abbrev restored : StoredPin → Restored → Restored
  restored p r = record r {
    pins =
        insert p.nickname
          (record {
            public_key = p.public_key;
            first_seen_unix_ms = p.first_seen_unix_ms;
            changed = false;
            change_written = false;
          })
          r.pins;
  }

  restore_pin-IsUsable :
      (p : StoredPin) (r : Restored)
      → IsUsable p
      → length r.pins < pin_capacity
      → restore_pin hex to_lowercase p r ≡ restored p r
  unfolding restore_pin
  restore_pin-IsUsable p r (named, same, usable) space =
      let below : leb pin_capacity (length r.pins) ≡ false = ground arith in
      rw (same, usable, named, below) refl

  restore_pins-IsUsable :
      (ps : List StoredPin) (r : Restored)
      → All IsUsable ps
      → DistinctPins ps
      → length r.pins + length ps ≤ pin_capacity
      → ((restore_pins hex to_lowercase ps r).dropped ≡ r.dropped)
        × ((j : Text)
            → key_of (lookup j (restore_pins hex to_lowercase ps r).pins)
              ≡ (elim (stored_key j ps) [ none ↦ key_of (lookup j r.pins) | some key ↦ some key ]))
  unfolding restore_pins
  restore_pins-IsUsable [] r hs d space = (refl, λ j. refl)
  restore_pins-IsUsable (p ∷ ps) r (h, hs) (fresh, d) space =
      let one = restore_pin-IsUsable p r h (omega arith) in
      let pin : Pin = record {
        public_key = p.public_key;
        first_seen_unix_ms = p.first_seen_unix_ms;
        changed = false;
        change_written = false;
      } in
      let grown : length (restored p r).pins ≤ length r.pins + 1 =
        ground (arith, length-insert p.nickname pin r.pins) in
      let (none_dropped, later) =
        restore_pins-IsUsable ps (restored p r) hs d (omega (arith, grown, space)) in
      let steps : restore_pins hex to_lowercase (p ∷ ps) r
          ≡ restore_pins hex to_lowercase ps (restored p r) =
        ap (restore_pins hex to_lowercase ps) one in
      (
        ap (λ t. t.dropped) steps ∙ none_dropped,
        λ j.
            ap (λ t. key_of (lookup j t.pins)) steps
            ∙ later j
            ∙ ground
                (arith, fresh, lookup-insert p.nickname j pin r.pins, text_eq_iff p.nickname j),
      )

stored_key-map :
    (j : Text) (pins : List (Text × Pin))
    → stored_key j (map stored_pin pins) ≡ key_of (lookup j pins)
unfolding stored_pin lookup
stored_key-map j [] = refl
stored_key-map j ((name, pin) ∷ pins) = ground (arith, stored_key-map j pins)

map-DistinctPins : (pins : List (Text × Pin)) → Distinct pins → DistinctPins (map stored_pin pins)
unfolding stored_pin
map-DistinctPins [] d = tt
map-DistinctPins ((name, pin) ∷ pins) (fresh, d) =
    (stored_key-map name pins ∙ ap key_of fresh, map-DistinctPins pins d)

length-map_stored : (pins : List (Text × Pin)) → length (map stored_pin pins) ≡ length pins
length-map_stored [] = refl
length-map_stored (entry ∷ pins) = ap suc (length-map_stored pins)

or_empty :
    (j : Text) (found : Option Text)
    → (elim found [ none ↦ key_of (lookup {V = Pin} j []) | some key ↦ some key ]) ≡ found
unfolding lookup
or_empty j none = refl
or_empty j (some key) = refl

module _ (hex : Hex) (laws : HexLaws hex) (to_lowercase : Text → Text)
    (idem : (n : Text)
      → normalize_nickname to_lowercase (normalize_nickname to_lowercase n)
        ≡ normalize_nickname to_lowercase n) where
  -- A canonical key is its own canonical form.
  canonical_key_idem :
      (announced key : Text)
      → canonical_key hex announced ≡ some key
      → canonical_key hex key ≡ some key
  unfolding canonical_key public_key_from_hex
  canonical_key_idem announced key h = elim (Option-cases (hex.decode (trim announced))) [
    | inl none_read ↦ ground arith
    | inr (bytes, read) ↦
        let text = hex.encode_upper bytes in
        let measured : (length bytes == 32) ≡ true = ground arith in
        let e : text ≡ key = ground arith in
        let again : hex.decode (trim text) ≡ some bytes =
          ap hex.decode (trim_id text (laws.encode_upper_no_space bytes))
          ∙ laws.decode-encode_upper bytes (laws.decode-IsByte (trim announced) bytes read) in
        subst (λ k. canonical_key hex k ≡ some k) e (rw (again, measured) refl)
  ]

  IsPinned-IsUsable :
      (pins : List (Text × Pin))
      → Entries (IsPinned hex to_lowercase) pins
      → All (IsUsable hex to_lowercase) (map stored_pin pins)
  unfolding stored_pin
  IsPinned-IsUsable [] hs = tt
  IsPinned-IsUsable ((name, pin) ∷ pins) ((named, (nickname, same), (announced, usable)), hs) = (
    (
      named,
      ap (normalize_nickname to_lowercase) same ∙ idem nickname ∙ sym same,
      canonical_key_idem announced pin.public_key usable,
    ),
    IsPinned-IsUsable pins hs,
  )

  -- A store that is loaded from what was published last pins the same key for every nickname as the
  -- store that published it, and leaves nothing out.
  pub pinned-load :
      (s : PinStore) (nickname : Text)
      → IsWellFormed hex to_lowercase s
      → (pinned to_lowercase nickname (load hex to_lowercase (parsed (snapshot s)))
          ≡ pinned to_lowercase nickname s)
        × ((load hex to_lowercase (parsed (snapshot s))).refused ≡ 0)
  unfolding pinned load restore adopt snapshot
  pinned-load s nickname t =
      let ps = map stored_pin s.pins in
      let j = normalize_nickname to_lowercase nickname in
      let (distinct, same) = stored_key-sort_pins ps (map-DistinctPins s.pins t.distinct) in
      let (usable, long) =
        sort_pins-All (IsUsable hex to_lowercase) ps (IsPinned-IsUsable s.pins t.entries) in
      let empty : Restored = record { pins = []; dropped = 0 } in
      let (none_dropped, keys) =
        restore_pins-IsUsable hex to_lowercase (sort_pins ps) empty usable distinct
          (omega (arith, long, length-map_stored s.pins, t.bounded)) in
      let key =
        keys j ∙ or_empty j (stored_key j (sort_pins ps)) ∙ same j ∙ stored_key-map j s.pins in
      (ground (arith, none_dropped, key), ground (arith, none_dropped))
