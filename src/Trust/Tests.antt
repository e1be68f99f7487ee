-- ===== src/Trust/Tests.antt =====
-- The pin store of crates/meta-text-backend/src/trust.rs on concrete announcements.
use mathlib.Core.Bool.{false≢true}
use meta_text.Prelude.{
  ℕ, suc, zero, ◌*◌, ◌≤◌, ◌≡◌, ◌≢◌, refl, ap, ◌∙◌, Bool, true, false, List, [], ◌∷◌, ◌++◌, some,
}
use meta_text.Prelude.Text.{Text, codes, is_empty, trim, is_whitespace, to_ascii_lowercase, text_eq}
use meta_text.Prelude.Assoc.{lookup}
use meta_text.Prelude.Text.Trim.{trim-trim}
use meta_text.Prelude.Text.Case.{text_eq_iff, to_ascii_lowercase_idem, trim-to_ascii_lowercase}
use meta_text.Hex.Digits.{digits, digits_laws}
use meta_text.Trust.{
  PinStore, changed, observe, snapshot, normalize_nickname, canonical_key, public_key_from_hex,
  pinned, pin_capacity, decide, settle,
}
use meta_text.Trust.Restore.{parsed, not_found, load}
use meta_text.Trust.Table.{IsWellFormed, observe-IsWellFormed, load-IsWellFormed}
use meta_text.Trust.Observe.{Announcement, is_refused, observe_all, observe_detects_change}
use meta_text.Trust.Writes.{observe_all-attempts}
use meta_text.Trust.Restart.{pinned-load}

-- ASCII case stands for the Unicode tables here.
abbrev lower : Text → Text
lower = to_ascii_lowercase

abbrev always : ℕ → Bool
always n = true

abbrev repeat : ℕ → Text → Text
repeat zero s = []
repeat (suc n) s = s ++ repeat n s

abbrev first_key : Text
first_key = repeat 32 (codes "a1")

abbrev second_key : Text
second_key = repeat 32 (codes "B2")

abbrev fresh : PinStore
fresh = load digits lower not_found

abbrev announced : List Announcement
announced =
    record { now_ms = 5; nickname = codes " Alice"; public_key = first_key }
    ∷ record { now_ms = 6; nickname = codes "alice"; public_key = second_key }
    ∷ record { now_ms = 7; nickname = codes "bob"; public_key = codes "no key" }
    ∷ []

alice_is_named : is_empty (normalize_nickname lower (codes " Alice")) ≡ false
unfolding normalize_nickname trim is_whitespace to_ascii_lowercase
alice_is_named = refl

first_is_usable : canonical_key digits first_key ≡ some (repeat 32 (codes "A1"))
unfolding canonical_key public_key_from_hex digits trim is_whitespace
first_is_usable = refl

second_is_usable : canonical_key digits second_key ≡ some (repeat 32 (codes "B2"))
unfolding canonical_key public_key_from_hex digits trim is_whitespace
second_is_usable = refl

abbrev alice : Announcement
alice = record { now_ms = 5; nickname = codes " Alice"; public_key = first_key }

abbrev changed_alice : Announcement
changed_alice = record { now_ms = 6; nickname = codes "alice"; public_key = second_key }

lower_idem :
    (n : Text) → normalize_nickname lower (normalize_nickname lower n) ≡ normalize_nickname lower n
unfolding normalize_nickname
lower_idem n =
    ap lower (trim-to_ascii_lowercase (trim n))
    ∙ to_ascii_lowercase_idem (trim (trim n))
    ∙ ap lower (trim-trim n)

observe-IsWellFormed_example :
    IsWellFormed digits lower (observe digits lower always 5 (codes " Alice") first_key fresh).1
observe-IsWellFormed_example =
    observe-IsWellFormed digits lower always 5 (codes " Alice") first_key fresh
      (load-IsWellFormed digits lower not_found)

observe_all-attempts_example :
    (observe_all digits lower always announced (load digits lower not_found)).attempts
    ≤ 2 * pin_capacity
observe_all-attempts_example = observe_all-attempts digits lower always announced not_found

-- a store that has pinned one key
abbrev alice_pinned : PinStore
alice_pinned = (observe digits lower always 5 (codes " Alice") first_key fresh).1

pinned-load_example :
    (pinned lower (codes "ALICE") (load digits lower (parsed (snapshot alice_pinned)))
      ≡ pinned lower (codes "ALICE") alice_pinned)
    × ((load digits lower (parsed (snapshot alice_pinned))).refused ≡ 0)
pinned-load_example = pinned-load digits digits_laws lower lower_idem alice_pinned (codes "ALICE") (
    observe-IsWellFormed digits lower always 5 (codes " Alice") first_key fresh
      (load-IsWellFormed digits lower not_found))

keys_differ : repeat 32 (codes "A1") ≢ repeat 32 (codes "B2")
unfolding text_eq
keys_differ e = false≢true ((text_eq_iff _ _).1 e)

alice_is_kept :
    is_refused (observe digits lower always 5 (codes " Alice") first_key fresh).0 ≡ false
unfolding observe load decide settle normalize_nickname canonical_key public_key_from_hex digits
    trim is_whitespace to_ascii_lowercase lookup
alice_is_kept = refl

same_name : normalize_nickname lower (codes "alice") ≡ normalize_nickname lower (codes " Alice")
unfolding normalize_nickname trim is_whitespace to_ascii_lowercase
same_name = refl

observe_detects_change_example :
    (observe digits lower always 6
      (codes "alice")
      second_key
      (observe digits lower always 5 (codes " Alice") first_key fresh).1).0
    ≡ changed (repeat 32 (codes "A1"))
observe_detects_change_example =
    observe_detects_change digits lower always alice changed_alice [] (repeat 32 (codes "A1"))
      (repeat 32 (codes "B2")) fresh alice_is_named same_name first_is_usable second_is_usable
      keys_differ alice_is_kept tt
