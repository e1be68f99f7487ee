-- ===== src/Core/Groups/Tests.antt =====
-- Groups of crates/meta-text-core/src/ipc/core.rs on a concrete session.
use meta_text.Prelude.{false, ◌≡◌, refl, List, [], ◌∷◌, none, some, Result, ok, true, any}
use meta_text.Prelude.Text.{Text, codes, eq_ignore_ascii_case, to_ascii_lowercase, text_eq}
use meta_text.Net.Peers.Examples.{session}
use meta_text.Core.State.{CoreService, Group}
use meta_text.Core.Groups.{
  has_id_ignoring_case, refresh_group_cache, create_group, join_group, rename_group, leave_group,
}
use meta_text.Core.Groups.Listed.{IdsDiffer, operations-IdsDiffer, refresh_group_cache_keeps}

abbrev group_of : Text → Group
group_of id = record { id = id; name = []; members = 2; joined = true }

abbrev started : CoreService
started = record {
  nickname = codes "alice";
  status_message = [];
  contacts = [];
  active_chat = none;
  groups = group_of (codes "a1") ∷ group_of (codes "b2") ∷ [];
  active_group = some (codes "a1");
  statistics = record {
    messages_sent = 0;
    bytes_sent = 0;
    messages_received = 0;
    bytes_received = 0;
  };
  crypto = session;
  max_friends = 3;
  max_message_length = 100;
}

ids_differ : IdsDiffer started.groups
unfolding has_id_ignoring_case eq_ignore_ascii_case to_ascii_lowercase text_eq
ids_differ = (refl, (refl, tt))

abbrev reported : Result Unit (List Group)
reported = ok (group_of (codes "C3") ∷ group_of (codes "A1") ∷ [])

operations-IdsDiffer_example :
    IdsDiffer (refresh_group_cache true reported started).groups
    × IdsDiffer (create_group (λ t. ok (group_of (codes "B2"))) (codes "B2") started).1.groups
    × IdsDiffer (join_group (λ t. ok (group_of (codes "B2"))) (codes "B2") started).1.groups
    × IdsDiffer (rename_group true (λ i n. true) none (codes "B2") started).1.groups
    × IdsDiffer (leave_group true (λ i. true) none started).1.groups
operations-IdsDiffer_example =
    operations-IdsDiffer true reported (λ t. ok (group_of (codes "B2"))) (λ i n. true) (λ i. true)
      none (codes "B2") started ids_differ

b2_is_known : any (has_id_ignoring_case (codes "B2")) started.groups ≡ true
unfolding has_id_ignoring_case eq_ignore_ascii_case to_ascii_lowercase text_eq
b2_is_known = refl

refresh_group_cache_keeps_example :
    (any (has_id_ignoring_case (codes "B2")) (refresh_group_cache true reported started).groups
      ≡ true)
    × ((refresh_group_cache false reported started).groups ≡ [])
refresh_group_cache_keeps_example =
    refresh_group_cache_keeps reported (codes "B2") started b2_is_known
