-- ===== src/Core/Groups.antt =====
-- The groups of a session, in crates/meta-text-core/src/ipc/core.rs. What the transport answers is an
-- argument.
pub mod Listed
mod Tests
use meta_text.Prelude.{
  ℕ, zero, suc, ◌+◌, ◌==◌, Bool, true, false, not, List, [], ◌∷◌, ◌++◌, Option, none, some, Result,
  ok, err, length, any, leb, if◌then◌else◌,
}
use meta_text.Prelude.Text.{Text, is_empty, trim, text_eq, eq_ignore_ascii_case, parse_usize}
use meta_text.Ipc.Validation.{group_name}
use meta_text.Core.State.{
  Group, CoreService, CoreError, rejected, groups_unsupported, group_name_required, token_required,
  no_such_group, group_failed,
}

pub data Reply : Type 0 where
  listed : Bool → List Group → Reply
  group_created group_joined : Group → Reply
  group_renamed : Text → Text → Reply
  group_left : Text → Reply

-- the first group that passes the test
unfoldable pub find : (Group → Bool) → List Group → Option Group
find test [] = none
find test (g ∷ groups) = let later = find test groups in if test g then some g else later

pub has_id : Text → Group → Bool
has_id id g = text_eq g.id id

pub has_id_ignoring_case : Text → Group → Bool
has_id_ignoring_case id g = eq_ignore_ascii_case g.id id

has_name : Text → Group → Bool
has_name name g = eq_ignore_ascii_case g.name name

nth : ℕ → List Group → Option Group
nth i [] = none
nth zero (g ∷ groups) = some g
nth (suc i) (g ∷ groups) = nth i groups

-- `groups.get(index - 1)` for an index from 1
numbered : Option ℕ → List Group → Option Group
unfolding nth
numbered none groups = none
numbered (some zero) groups = none
numbered (some (suc i)) groups = nth i groups

-- the id of the only group
only : List Group → Option Text
only [] = none
only (g ∷ []) = some g.id
only (g ∷ h ∷ groups) = none

-- `or_else`
or_else : {A : Type 0} → Option A → Option A → Option A
or_else none later = later
or_else (some a) later = some a

pub resolve_group : Text → CoreService → Option Group
unfolding has_id has_id_ignoring_case has_name numbered only or_else
resolve_group selector s =
    let wanted = trim selector in
    let active : Option Group = elim (or_else s.active_group (only s.groups)) [
      | none ↦ none
      | some id ↦ find (has_id id) s.groups
    ] in
    if is_empty wanted
    then active
    else or_else (numbered (parse_usize wanted) s.groups)
        (or_else (find (has_id_ignoring_case wanted) s.groups) (find (has_name wanted) s.groups))

-- the fields of a group that is known, after new ones were reported
updated : Group → Group → Group
updated reported g = record g {
  name = if is_empty reported.name then g.name else reported.name;
  members = reported.members;
  joined = reported.joined;
}

pub remember_group : Group → List Group → List Group
unfolding updated has_id_ignoring_case
remember_group reported [] = reported ∷ []
remember_group reported (g ∷ groups) =
    let rest = remember_group reported groups in
    if has_id_ignoring_case reported.id g then updated reported g ∷ groups else g ∷ rest

remember_all : List Group → List Group → List Group
unfolding remember_group
remember_all [] groups = groups
remember_all (g ∷ reported) groups = remember_all reported (remember_group g groups)

-- `supported` and `answer`: what the transport says
pub refresh_group_cache : Bool → Result Unit (List Group) → CoreService → CoreService
unfolding remember_all
refresh_group_cache supported answer s =
    if not supported then record s { groups = [] } else elim answer [
      | err e ↦ s
      | ok reported ↦ record s { groups = remember_all reported s.groups }
    ]

pub list_groups : Bool → Result Unit (List Group) → CoreService → Reply × CoreService
unfolding refresh_group_cache
list_groups supported answer s =
    let refreshed = refresh_group_cache supported answer s in
    (listed supported refreshed.groups, refreshed)

-- a group that the session is in from now on, and talks to
entered : Group → CoreService → CoreService
entered group s = record s { groups = remember_group group s.groups; active_group = some group.id }

pub create_group :
    (Text → Result Unit Group) → Text → CoreService → Result CoreError Reply × CoreService
unfolding entered
create_group create title s = elim (group_name title) [
  | err e ↦ (err (rejected e), s)
  | ok name ↦ elim (create name) [
    | err e ↦ (err group_failed, s)
    | ok group ↦ (ok (group_created group), entered group s)
  ]
]

pub join_group :
    (Text → Result Unit Group) → Text → CoreService → Result CoreError Reply × CoreService
unfolding entered
join_group join token s =
    if is_empty (trim token) then (err token_required, s) else elim (join (trim token)) [
      | err e ↦ (err group_failed, s)
      | ok group ↦ (ok (group_joined group), entered group s)
    ]

-- `group_id.as_deref().unwrap_or_default()`
wanted_of : Option Text → Text
wanted_of none = []
wanted_of (some id) = id

pub rename_group :
    Bool
    → (Text → Text → Bool)
    → Option Text
    → Text
    → CoreService
    → Result CoreError Reply × CoreService
unfolding wanted_of
rename_group supported rename group_id given s =
    if not supported then (err groups_unsupported, s) else elim (group_name given) [
      | err e ↦ (err (rejected e), s)
      | ok name ↦
          if is_empty name
          then (err group_name_required, s)
          else elim (resolve_group (wanted_of group_id) s) [
            | none ↦ (err no_such_group, s)
            | some group ↦ if not (rename group.id name) then (err group_failed, s) else (
              ok (group_renamed group.id name),
              record s { groups = remember_group (record group { name = name }) s.groups },
            )
          ]
    ]

-- `groups.retain(|group| group.id != id)`
without : Text → List Group → List Group
without id [] = []
without id (g ∷ groups) = let rest = without id groups in if text_eq g.id id then rest else g ∷ rest

-- `self.active_group.as_deref() == Some(id)`
is_active : Text → Option Text → Bool
is_active id none = false
is_active id (some active) = text_eq active id

pub leave_group :
    Bool → (Text → Bool) → Option Text → CoreService → Result CoreError Reply × CoreService
unfolding wanted_of without is_active
leave_group supported leave group_id s =
    if not supported
    then (err groups_unsupported, s)
    else elim (resolve_group (wanted_of group_id) s) [
      | none ↦ (err no_such_group, s)
      | some group ↦ if not (leave group.id) then (err group_failed, s) else (
        ok (group_left group.id),
        record s {
          groups = without group.id s.groups;
          active_group = if is_active group.id s.active_group then none else s.active_group;
        },
      )
    ]
