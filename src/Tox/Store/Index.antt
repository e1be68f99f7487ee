-- ===== src/Tox/Store/Index.antt =====
-- The table from keys in lower case to friend numbers, which `restore_state` builds.
use meta_text.Prelude.{
  ℕ, ◌≡◌, refl, sym, ap, ◌∙◌, Bool, false, ◌||◌, List, [], ◌∷◌, some, ◌==◌, Bool-cases, inl, inr,
  arith,
}
use meta_text.Prelude.Text.{Text, text_eq}
use meta_text.Prelude.Text.Case.{text_eq_refl}
use meta_text.Prelude.Assoc.{lookup, insert, lookup-insert, number_key, text_key}
use meta_text.Tox.State.{FriendEntry}
use meta_text.Tox.Store.{index_friends}

module _ (lower : Text → Text) where
  abbrev pub knows : Text → List (ℕ × FriendEntry) → Bool
  knows key [] = false
  knows key ((n, friend) ∷ friends) = text_eq (lower friend.public_key) key || knows key friends

  -- No two friends have the same key in lower case.
  abbrev pub UniqueKeys : List (ℕ × FriendEntry) → Type 0
  UniqueKeys [] = Unit
  UniqueKeys ((n, friend) ∷ friends) =
      (knows (lower friend.public_key) friends ≡ false) × UniqueKeys friends

  index_friends-unknown :
      (key : Text) (friends : List (ℕ × FriendEntry)) (by_key : List (Text × ℕ))
      → knows key friends ≡ false
      → lookup key (index_friends lower friends by_key) ≡ lookup key by_key
  unfolding index_friends
  index_friends-unknown key [] by_key e = refl
  index_friends-unknown key ((n, friend) ∷ friends) by_key e =
      let other = lookup-insert (lower friend.public_key) key n by_key in
      index_friends-unknown key friends (insert (lower friend.public_key) n by_key)
        (ground (arith, e))
      ∙ ground (arith, e, other)

  -- The number of a friend is found by its key.
  pub lookup-index_friends :
      (n : ℕ) (friend : FriendEntry) (friends : List (ℕ × FriendEntry)) (by_key : List (Text × ℕ))
      → UniqueKeys friends
      → lookup n friends ≡ some friend
      → lookup (lower friend.public_key) (index_friends lower friends by_key) ≡ some n
  unfolding index_friends lookup
  lookup-index_friends n friend [] by_key u e = ground (arith, e)
  lookup-index_friends n friend ((j, g) ∷ friends) by_key (fresh, u) e =
      let by_key' = insert (lower g.public_key) j by_key in
      elim (Bool-cases (j == n)) [
        | inl same ↦
            let found : g ≡ friend = ground (arith, e, same) in
            let key = lower g.public_key in
            ap (λ f. lookup (lower f.public_key) (index_friends lower friends by_key')) (sym found)
            ∙ index_friends-unknown key friends by_key' fresh
            ∙ lookup-insert key key j by_key
            ∙ ground (arith, same, text_eq_refl key)
        | inr other ↦ lookup-index_friends n friend friends by_key' u (ground (arith, e, other))
      ]
