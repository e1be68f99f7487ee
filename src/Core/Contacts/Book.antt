-- ===== src/Core/Contacts/Book.antt =====
-- What every request keeps of the contacts, in crates/meta-text-core/src/ipc/core.rs.
use meta_text.Prelude.{
  ℕ, zero, suc, ◌≤◌, ◌≡◌, refl, ◌∙◌, Bool, true, false, ◌||◌, List, [], ◌∷◌, ◌++◌, none, some,
  length, any, arith, length-append,
}
use meta_text.Prelude.Text.{Text, eq_ignore_ascii_case, to_ascii_lowercase}
use meta_text.Prelude.Assoc.{text_key}
use meta_text.Core.State.{Contact, CoreService}
use meta_text.Core.Contacts.{friend_limit_error, has_name, has_id, nth, remove_at}

eq_ignore_ascii_case_sym : (s t : Text) → eq_ignore_ascii_case s t ≡ eq_ignore_ascii_case t s
unfolding eq_ignore_ascii_case
eq_ignore_ascii_case_sym s t = ground (
  arith,
  text_key.beq_iff (to_ascii_lowercase s) (to_ascii_lowercase t),
  text_key.beq_iff (to_ascii_lowercase t) (to_ascii_lowercase s),
)

-- no two contacts have one name, without regard to case
abbrev pub NamesDiffer : List Contact → Type 0
NamesDiffer [] = Unit
NamesDiffer (c ∷ contacts) = (any (has_name c.name) contacts ≡ false) × NamesDiffer contacts

-- The contacts have different names and are at most `max_friends`, and the active conversation, if there
-- is one, is with one of them.
pub record IsBook (s : CoreService) : Type 0 where
  pub names : NamesDiffer s.contacts
  pub fits : length s.contacts ≤ s.max_friends
  pub active : (id : ℕ) → s.active_chat ≡ some id → any (has_id id) s.contacts ≡ true

any-append :
    (p : Contact → Bool) (xs : List Contact) (y : Contact)
    → any p (xs ++ y ∷ []) ≡ (any p xs || p y)
any-append p [] y = ground arith
any-append p (x ∷ xs) y = ground (arith, any-append p xs y)

append-NamesDiffer :
    (contacts : List Contact) (c : Contact)
    → any (has_name c.name) contacts ≡ false
    → NamesDiffer contacts
    → NamesDiffer (contacts ++ c ∷ [])
unfolding has_name
append-NamesDiffer [] c e d = (refl, tt)
append-NamesDiffer (x ∷ contacts) c e (fresh, d) = (
  any-append (has_name x.name) contacts c
      ∙ ground (arith, fresh, eq_ignore_ascii_case_sym x.name c.name),
  append-NamesDiffer contacts c (ground arith) d,
)

any-remove_at :
    (p : Contact → Bool) (i : ℕ) (contacts : List Contact)
    → any p contacts ≡ false
    → any p (remove_at i contacts) ≡ false
unfolding remove_at
any-remove_at p i [] e = refl
any-remove_at p zero (c ∷ contacts) e = ground arith
any-remove_at p (suc i) (c ∷ contacts) e = ground (arith, any-remove_at p i contacts)

pub remove_at-NamesDiffer :
    (i : ℕ) (contacts : List Contact) → NamesDiffer contacts → NamesDiffer (remove_at i contacts)
unfolding remove_at
remove_at-NamesDiffer i [] d = tt
remove_at-NamesDiffer zero (c ∷ contacts) (fresh, d) = d
remove_at-NamesDiffer (suc i) (c ∷ contacts) (fresh, d) =
    (any-remove_at (has_name c.name) i contacts fresh, remove_at-NamesDiffer i contacts d)

pub length-remove_at :
    (i : ℕ) (contacts : List Contact) → length (remove_at i contacts) ≤ length contacts
unfolding remove_at
length-remove_at i [] = omega arith
length-remove_at zero (c ∷ contacts) = omega arith
length-remove_at (suc i) (c ∷ contacts) = omega (arith, length-remove_at i contacts)

-- A contact that passes the test survives the removal of one that does not.
pub any-remove_other :
    (p : Contact → Bool) (i : ℕ) (contacts : List Contact) (removed : Contact)
    → nth i contacts ≡ some removed
    → p removed ≡ false
    → any p contacts ≡ true
    → any p (remove_at i contacts) ≡ true
unfolding nth remove_at
any-remove_other p i [] removed e other h = cc
any-remove_other p zero (c ∷ contacts) removed e other h = ground (arith, other)
any-remove_other p (suc i) (c ∷ contacts) removed e other h =
    ground (arith, any-remove_other p i contacts removed)

pub any-nth :
    (p : Contact → Bool) (i : ℕ) (contacts : List Contact) (c : Contact)
    → nth i contacts ≡ some c
    → p c ≡ true
    → any p contacts ≡ true
unfolding nth
any-nth p i [] c e h = cc
any-nth p zero (x ∷ contacts) c e h = ground (arith, h)
any-nth p (suc i) (x ∷ contacts) c e h = ground (arith, any-nth p i contacts c)

-- A contact with a new name may be added where there is room.
pub add-IsBook :
    (s : CoreService) (c : Contact)
    → IsBook s
    → any (has_name c.name) s.contacts ≡ false
    → friend_limit_error s ≡ none
    → IsBook (record s { contacts = s.contacts ++ c ∷ [] })
unfolding friend_limit_error
add-IsBook s c book new room = record {
  names = append-NamesDiffer s.contacts c new book.names;
  fits = ground (arith, length-append s.contacts (c ∷ []));
  active = λ id e. any-append (has_id id) s.contacts c ∙ ground (arith, book.active id e);
}
