-- ===== src/Tox/Requests/Pending.antt =====
-- The list of pending requests: each key once up to ASCII case, at most 128 entries, and what an
-- answer to a request removes.
use meta_text.Prelude.{
  ◌≤◌, ◌≡◌, refl, sym, ap, true, false, not, ◌&&◌, ◌||◌, List, [], ◌∷◌, ◌++◌, none, some, length,
  arith,
}
use meta_text.Prelude.Text.{Text, text_eq, eq_ignore_ascii_case, to_ascii_lowercase}
use meta_text.Prelude.Text.Case.{eq_ignore_ascii_case_iff}
use meta_text.Tox.State.{PeerRequest}
use meta_text.Tox.Requests.{has_key, is_pending, remove_first, find_key, without}

-- Keys that differ only in case match the same keys, on either side.
pub same_key :
    (a b c : Text)
    → eq_ignore_ascii_case a b ≡ true
    → (eq_ignore_ascii_case c a ≡ eq_ignore_ascii_case c b)
      × (eq_ignore_ascii_case a c ≡ eq_ignore_ascii_case b c)
      × (eq_ignore_ascii_case b a ≡ true)
unfolding eq_ignore_ascii_case
same_key a b c e =
    let lower : to_ascii_lowercase a ≡ to_ascii_lowercase b = (eq_ignore_ascii_case_iff a b).0 e in
    (
      ap (text_eq (to_ascii_lowercase c)) lower,
      ap (λ t. text_eq t (to_ascii_lowercase c)) lower,
      (eq_ignore_ascii_case_iff b a).1 (sym lower),
    )

pub is_pending-same :
    (j k : Text) (rs : List PeerRequest)
    → eq_ignore_ascii_case j k ≡ true
    → is_pending j rs ≡ is_pending k rs
is_pending-same j k [] e = refl
is_pending-same j k (r ∷ rs) e =
    ground (arith, is_pending-same j k rs e, same_key j k r.public_key e)

pub is_pending-append :
    (k : Text) (rs : List PeerRequest) (r : PeerRequest)
    → is_pending k (rs ++ r ∷ []) ≡ is_pending k rs || has_key k r
is_pending-append k [] r = ground arith
is_pending-append k (q ∷ rs) r = ground (arith, is_pending-append k rs r)

-- No two requests have the same key.
abbrev pub AllDistinct : List PeerRequest → Type 0
AllDistinct [] = Unit
AllDistinct (r ∷ rs) = (is_pending r.public_key rs ≡ false) × AllDistinct rs

pub append-AllDistinct :
    (rs : List PeerRequest) (r : PeerRequest)
    → is_pending r.public_key rs ≡ false
    → AllDistinct rs
    → AllDistinct (rs ++ r ∷ [])
append-AllDistinct [] r fresh d = (refl, tt)
append-AllDistinct (q ∷ rs) r fresh (e, d) = ground (
  arith,
  fresh,
  e,
  is_pending-append q.public_key rs r,
  append-AllDistinct rs r,
  same_key r.public_key q.public_key r.public_key,
)

-- A key is pending after the removal of k where it was and it is not k.
pub is_pending-without :
    (j k : Text) (rs : List PeerRequest)
    → is_pending j (without k rs) ≡ is_pending j rs && not (eq_ignore_ascii_case j k)
unfolding without
is_pending-without j k [] = refl
is_pending-without j k (r ∷ rs) = ground (
  arith,
  is_pending-without j k rs,
  same_key j k r.public_key,
  same_key r.public_key k j,
  same_key r.public_key j k,
)

pub without-AllDistinct :
    (k : Text) (rs : List PeerRequest) → AllDistinct rs → AllDistinct (without k rs)
unfolding without
without-AllDistinct k [] d = tt
without-AllDistinct k (r ∷ rs) (e, d) =
    ground (arith, e, without-AllDistinct k rs d, is_pending-without r.public_key k rs)

pub length-without : (k : Text) (rs : List PeerRequest) → length (without k rs) ≤ length rs
unfolding without
length-without k [] = omega arith
length-without k (r ∷ rs) = ground (arith, length-without k rs)

without_absent : (k : Text) (rs : List PeerRequest) → is_pending k rs ≡ false → without k rs ≡ rs
unfolding without
without_absent k [] e = refl
without_absent k (r ∷ rs) e = ground (arith, e, without_absent k rs)

-- `find` gives a key that matches, and nothing just where none does.
pub find_key-some :
    (k : Text) (rs : List PeerRequest) (found : Text)
    → find_key k rs ≡ some found
    → (is_pending k rs ≡ true) × (eq_ignore_ascii_case found k ≡ true)
unfolding find_key
find_key-some k [] found e = ground (arith, e)
find_key-some k (r ∷ rs) found e = ground (arith, e, find_key-some k rs found)

pub find_key-none :
    (k : Text) (rs : List PeerRequest) → find_key k rs ≡ none → is_pending k rs ≡ false
unfolding find_key
find_key-none k [] e = refl
find_key-none k (r ∷ rs) e = ground (arith, e, find_key-none k rs)

-- Removing the first match removes all, where the keys are distinct.
pub remove_first-without :
    (k : Text) (rs : List PeerRequest)
    → AllDistinct rs
    → remove_first k rs
      ≡ (elim (find_key k rs) [ none ↦ none | some found ↦ some (found, without k rs) ])
unfolding remove_first find_key without
remove_first-without k [] d = refl
remove_first-without k (r ∷ rs) (e, d) =
    let later = remove_first-without k rs d in
    ground (arith, later, e, without_absent k rs, is_pending-same r.public_key k rs)
