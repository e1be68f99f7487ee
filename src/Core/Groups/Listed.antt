-- ===== src/Core/Groups/Listed.antt =====
-- The list of groups across requests, in crates/meta-text-core/src/ipc/core.rs.
use meta_text.Prelude.{
  ◌≡◌, refl, ◌∙◌, Bool, true, false, inl, inr, List, [], ◌∷◌, Option, Result, any, arith,
  Bool-cases, Option-cases, Result-cases,
}
use meta_text.Prelude.Text.{Text, is_empty, trim, eq_ignore_ascii_case, to_ascii_lowercase, text_eq}
use meta_text.Prelude.Assoc.{text_key}
use meta_text.Ipc.Validation.{group_name}
use meta_text.Core.State.{Group, CoreService}
use meta_text.Core.Groups.{
  has_id_ignoring_case, updated, remember_group, remember_all, refresh_group_cache, entered,
  create_group, join_group, rename_group, leave_group, resolve_group, without, wanted_of,
}

-- no two groups have one id, without regard to case
abbrev pub IdsDiffer : List Group → Type 0
IdsDiffer [] = Unit
IdsDiffer (g ∷ groups) = (any (has_id_ignoring_case g.id) groups ≡ false) × IdsDiffer groups

same_case : (s t : Text) → eq_ignore_ascii_case s t ≡ eq_ignore_ascii_case t s
unfolding eq_ignore_ascii_case
same_case s t = ground (
  arith,
  text_key.beq_iff (to_ascii_lowercase s) (to_ascii_lowercase t),
  text_key.beq_iff (to_ascii_lowercase t) (to_ascii_lowercase s),
)

-- Remembering a group hides none.
any-remember_group :
    (id : Text) (g : Group) (groups : List Group)
    → any (has_id_ignoring_case id) groups ≡ true
    → any (has_id_ignoring_case id) (remember_group g groups) ≡ true
unfolding remember_group updated has_id_ignoring_case
any-remember_group id g [] h = cc
any-remember_group id g (k ∷ groups) h = ground (arith, any-remember_group id g groups)

-- It adds none under another id.
any-remember_other :
    (id : Text) (g : Group) (groups : List Group)
    → eq_ignore_ascii_case g.id id ≡ false
    → any (has_id_ignoring_case id) groups ≡ false
    → any (has_id_ignoring_case id) (remember_group g groups) ≡ false
unfolding remember_group updated has_id_ignoring_case
any-remember_other id g [] other h = ground (arith, other)
any-remember_other id g (k ∷ groups) other h = ground (arith, any-remember_other id g groups other)

remember_group-IdsDiffer :
    (g : Group) (groups : List Group) → IdsDiffer groups → IdsDiffer (remember_group g groups)
unfolding remember_group updated has_id_ignoring_case
remember_group-IdsDiffer g [] d = (refl, tt)
remember_group-IdsDiffer g (h ∷ groups) (fresh, d) =
    elim (Bool-cases (has_id_ignoring_case g.id h)) [
      | inl known ↦ rw known (fresh, d)
      | inr other ↦ rw other (
        any-remember_other h.id g groups (same_case g.id h.id ∙ other) fresh,
        remember_group-IdsDiffer g groups d,
      )
    ]

remember_all-IdsDiffer :
    (reported groups : List Group) → IdsDiffer groups → IdsDiffer (remember_all reported groups)
unfolding remember_all
remember_all-IdsDiffer [] groups d = d
remember_all-IdsDiffer (g ∷ reported) groups d =
    remember_all-IdsDiffer reported (remember_group g groups) (remember_group-IdsDiffer g groups d)

any-remember_all :
    (id : Text) (reported groups : List Group)
    → any (has_id_ignoring_case id) groups ≡ true
    → any (has_id_ignoring_case id) (remember_all reported groups) ≡ true
unfolding remember_all
any-remember_all id [] groups h = h
any-remember_all id (g ∷ reported) groups h =
    any-remember_all id reported (remember_group g groups) (any-remember_group id g groups h)

-- Where the transport supports groups, a refresh drops no group: one that is known stays listed, also
-- where the transport no longer reports it or does not answer. Where it supports none, the refresh
-- empties the list.
pub refresh_group_cache_keeps :
    (answer : Result Unit (List Group)) (id : Text) (s : CoreService)
    → any (has_id_ignoring_case id) s.groups ≡ true
    → (any (has_id_ignoring_case id) (refresh_group_cache true answer s).groups ≡ true)
      × ((refresh_group_cache false answer s).groups ≡ [])
unfolding refresh_group_cache
refresh_group_cache_keeps answer id s h = elim (Result-cases answer) [
  | inl (e, failed) ↦ (rw (refresh_group_cache, failed) h, refl)
  | inr (reported, given) ↦
      (rw (refresh_group_cache, given) (any-remember_all id reported s.groups h), refl)
]

any-without :
    (p : Group → Bool) (id : Text) (groups : List Group)
    → any p groups ≡ false
    → any p (without id groups) ≡ false
unfolding without
any-without p id [] h = refl
any-without p id (g ∷ groups) h = ground (arith, any-without p id groups)

without-IdsDiffer :
    (id : Text) (groups : List Group) → IdsDiffer groups → IdsDiffer (without id groups)
unfolding without
without-IdsDiffer id [] d = tt
without-IdsDiffer id (g ∷ groups) (fresh, d) = elim (Bool-cases (text_eq g.id id)) [
  | inl gone ↦ rw gone (without-IdsDiffer id groups d)
  | inr stays ↦
      rw stays
        (any-without (has_id_ignoring_case g.id) id groups fresh, without-IdsDiffer id groups d)
]

entered-IdsDiffer :
    (g : Group) (s : CoreService) → IdsDiffer s.groups → IdsDiffer (entered g s).groups
unfolding entered
entered-IdsDiffer g s d = remember_group-IdsDiffer g s.groups d

create_group-IdsDiffer :
    (create : Text → Result Unit Group) (title : Text) (s : CoreService)
    → IdsDiffer s.groups
    → IdsDiffer (create_group create title s).1.groups
unfolding create_group
create_group-IdsDiffer create title s d = elim (Result-cases (group_name title)) [
  | inl (e, h) ↦ rw (create_group, h) d
  | inr (name, h) ↦ elim (Result-cases (create name)) [
    | inl (e, k) ↦ rw (create_group, h, k) d
    | inr (g, k) ↦ rw (create_group, h, k) (entered-IdsDiffer g s d)
  ]
]

join_group-IdsDiffer :
    (join : Text → Result Unit Group) (token : Text) (s : CoreService)
    → IdsDiffer s.groups
    → IdsDiffer (join_group join token s).1.groups
unfolding join_group
join_group-IdsDiffer join token s d = elim (Bool-cases (is_empty (trim token))) [
  | inl blank ↦ rw (join_group, blank) d
  | inr given ↦ elim (Result-cases (join (trim token))) [
    | inl (e, k) ↦ rw (join_group, given, k) d
    | inr (g, k) ↦ rw (join_group, given, k) (entered-IdsDiffer g s d)
  ]
]

rename_group-IdsDiffer :
    (supported : Bool) (rename : Text → Text → Bool) (group_id : Option Text) (given : Text)
    (s : CoreService)
    → IdsDiffer s.groups
    → IdsDiffer (rename_group supported rename group_id given s).1.groups
unfolding rename_group
rename_group-IdsDiffer false rename group_id given s d = d
rename_group-IdsDiffer true rename group_id given s d = elim (Result-cases (group_name given)) [
  | inl (e, h) ↦ rw (rename_group, h) d
  | inr (name, h) ↦ elim (Bool-cases (is_empty name)) [
    | inl blank ↦ rw (rename_group, h, blank) d
    | inr named ↦ elim (Option-cases (resolve_group (wanted_of group_id) s)) [
      | inl none_found ↦ rw (rename_group, h, named, none_found) d
      | inr (g, found) ↦ elim (Bool-cases (rename g.id name)) [
        | inl done ↦
            rw (rename_group, h, named, found, done)
              (remember_group-IdsDiffer (record g { name = name }) s.groups d)
        | inr failed ↦ rw (rename_group, h, named, found, failed) d
      ]
    ]
  ]
]

leave_group-IdsDiffer :
    (supported : Bool) (leave : Text → Bool) (group_id : Option Text) (s : CoreService)
    → IdsDiffer s.groups
    → IdsDiffer (leave_group supported leave group_id s).1.groups
unfolding leave_group
leave_group-IdsDiffer false leave group_id s d = d
leave_group-IdsDiffer true leave group_id s d =
    elim (Option-cases (resolve_group (wanted_of group_id) s)) [
      | inl none_found ↦ rw (leave_group, none_found) d
      | inr (g, found) ↦ elim (Bool-cases (leave g.id)) [
        | inl done ↦ rw (leave_group, found, done) (without-IdsDiffer g.id s.groups d)
        | inr failed ↦ rw (leave_group, found, failed) d
      ]
    ]

refresh_group_cache-IdsDiffer :
    (supported : Bool) (answer : Result Unit (List Group)) (s : CoreService)
    → IdsDiffer s.groups
    → IdsDiffer (refresh_group_cache supported answer s).groups
unfolding refresh_group_cache
refresh_group_cache-IdsDiffer false answer s d = tt
refresh_group_cache-IdsDiffer true answer s d = elim (Result-cases answer) [
  | inl (e, failed) ↦ rw (refresh_group_cache, failed) d
  | inr (reported, given) ↦
      rw (refresh_group_cache, given) (remember_all-IdsDiffer reported s.groups d)
]

-- Each request on groups, whatever the transport answers, keeps the ids of the groups different without
-- regard to case: the refresh, the creation, the joining, the renaming and the leaving.
pub operations-IdsDiffer :
    (supported : Bool) (answer : Result Unit (List Group)) (enter : Text → Result Unit Group)
    (rename : Text → Text → Bool) (leave : Text → Bool) (group_id : Option Text) (given : Text)
    (s : CoreService)
    → IdsDiffer s.groups
    → IdsDiffer (refresh_group_cache supported answer s).groups
      × IdsDiffer (create_group enter given s).1.groups
      × IdsDiffer (join_group enter given s).1.groups
      × IdsDiffer (rename_group supported rename group_id given s).1.groups
      × IdsDiffer (leave_group supported leave group_id s).1.groups
operations-IdsDiffer supported answer enter rename leave group_id given s d = (
  refresh_group_cache-IdsDiffer supported answer s d,
  create_group-IdsDiffer enter given s d,
  join_group-IdsDiffer enter given s d,
  rename_group-IdsDiffer supported rename group_id given s d,
  leave_group-IdsDiffer supported leave group_id s d,
)
