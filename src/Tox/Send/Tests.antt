-- ===== src/Tox/Send/Tests.antt =====
-- Addressing and coming online in crates/meta-text-backend/src/transport.rs, on a concrete table.
use meta_text.Prelude.{ℕ, ◌≡◌, refl, true, List, [], ◌∷◌, none, some, length, ◌==◌, if◌then◌else◌}
use meta_text.Prelude.Text.{
  Text, codes, trim, to_ascii_lowercase, text_eq, eq_ignore_ascii_case, is_whitespace,
}
use meta_text.Prelude.Assoc.{lookup, number_key}
use meta_text.Hex.Digits.{digits}
use meta_text.Net.Frame.{MessageKind}
use meta_text.Tox.State.{QueuedMessage, FriendEntry, ToxTransport}
use meta_text.Tox.Outbox.{ToxClient, prune_queue}
use meta_text.Tox.Outbox.Queues.{queue_of}
use meta_text.Tox.Send.{friend_online, resolve_friend, find_friend}
use meta_text.Tox.Send.Online.{TakesAll, send_each, friend_online-deliver}

-- ASCII case stands for the Unicode tables here.
abbrev upper : Text → Text
upper = to_ascii_lowercase

abbrev taker : ToxClient
taker = record { Client = List (List ℕ); send = λ n body kind c. (true, body ∷ c) }

taker-TakesAll : TakesAll taker
taker-TakesAll n body kind c = refl

abbrev message : ℕ → QueuedMessage
message id = record { message_id = id; body = id ∷ []; kind = MessageKind.text; queued_at = 5 }

abbrev friends : List (ℕ × FriendEntry)
friends =
    (7, record { public_key = codes "AB"; name = codes "alice"; connected = true })
    ∷ (9, record { public_key = codes "CD"; name = codes "bob"; connected = true })
    ∷ []

abbrev transport : ToxTransport
transport = record {
  friends = friends;
  requests = [];
  outbox = (7, message 1 ∷ message 2 ∷ []) ∷ [];
  next_message_id = 3;
  expired = 0;
  dropped_requests = 0;
  desired = [];
  file = none;
}

bob_found : resolve_friend upper (codes " Bob ") friends ≡ some 9
unfolding resolve_friend find_friend trim to_ascii_lowercase text_eq eq_ignore_ascii_case
    is_whitespace
bob_found = refl

friend_online-deliver_example :
    let fresh = prune_queue 9 (queue_of 7 transport.outbox) in
    ((friend_online taker digits none 9 true 7 [] transport).0 ≡ length fresh)
    × ((friend_online taker digits none 9 true 7 [] transport).1 ≡ send_each taker 7 fresh [])
    × ((j : ℕ)
        → queue_of j (friend_online taker digits none 9 true 7 [] transport).2.outbox
          ≡ (if 7 == j then [] else prune_queue 9 (queue_of j transport.outbox)))
unfolding lookup
friend_online-deliver_example =
    friend_online-deliver taker digits none 9 true 7 [] transport taker-TakesAll (refl, tt)
