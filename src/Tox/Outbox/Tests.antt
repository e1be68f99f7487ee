-- ===== src/Tox/Outbox/Tests.antt =====
-- The outbox of crates/meta-text-backend/src/transport.rs on a concrete table and client.
use mathlib.Core.List.Sublist as Sub
use meta_text.Prelude.{
  ℕ, zero, suc, ◌≤◌, ◌≡◌, refl, true, List, [], ◌∷◌, ◌++◌, Option, none, some, length, ltb, arith,
}
use meta_text.Prelude.Assoc.{lookup, insert, remove, number_key}
use meta_text.Hex.Digits.{digits}
use meta_text.Net.Frame.{MessageKind}
use meta_text.Tox.State.{
  QueuedMessage, Queue, ToxOutbox, ToxTransport, tox_outbox_capacity, persist, queued_age,
}
use meta_text.Tox.Outbox.{
  ToxClient, pop_outbox, push_front, enqueue, queued_messages, flush_outbox, enqueue_pruned,
  prune_outbox, prune_queue, flush_loop,
}
use meta_text.Tox.Outbox.Flush.{Flushed, flush_outbox-deliver}
use meta_text.Tox.Outbox.Bounds.{IsWithin, Enqueued, enqueue-verdict, operations-IsWithin}
use meta_text.Tox.Outbox.Queues.{queue_of}
use meta_text.Tox.Outbox.Interleaving.{
  World, Event, pop_front, send_succeeds, send_fails, prunes, pushes, sends, step, run, pop_step,
  answer_step,
}
use meta_text.Tox.Outbox.Interleaving.Order.{IsSafe, run-IsSafe}

-- a client that takes two payloads and then refuses
abbrev two_taker : ToxClient
two_taker = record { Client = ℕ; send = λ n body kind c. (ltb c 2, suc c) }

abbrev message : ℕ → QueuedMessage
message id = record { message_id = id; body = id ∷ []; kind = MessageKind.text; queued_at = 5 }

abbrev three : Queue
three = message 1 ∷ message 2 ∷ message 3 ∷ []

abbrev table : ToxOutbox
table = (7, three) ∷ (9, message 4 ∷ []) ∷ []

abbrev transport : ToxTransport
transport = record {
  friends = [];
  requests = [];
  outbox = table;
  next_message_id = 5;
  expired = 0;
  dropped_requests = 0;
  desired = [];
  file = none;
}

two_sent : (flush_outbox two_taker 7 0 table).0 ≡ 2
unfolding flush_outbox flush_loop pop_outbox lookup insert
two_sent = refl

third_kept : lookup 7 (flush_outbox two_taker 7 0 table).2 ≡ some (message 3 ∷ [])
unfolding flush_outbox flush_loop pop_outbox lookup insert push_front
third_kept = refl

flush_outbox-deliver_example : Flushed two_taker 7 0 three table (flush_outbox two_taker 7 0 table)
unfolding lookup
flush_outbox-deliver_example = flush_outbox-deliver two_taker 7 0 table

enqueue-verdict_example :
    Enqueued digits 9 7
      (1 ∷ [])
      MessageKind.text
      transport
      (enqueue digits 9 true 7 (1 ∷ []) MessageKind.text transport)
unfolding lookup
enqueue-verdict_example =
    enqueue-verdict digits 9 true 7 (1 ∷ []) MessageKind.text transport (refl, (refl, tt))

short_queue : (q : Queue) → length q ≤ 3 → length q ≤ tox_outbox_capacity
short_queue q e = omega (arith, e)

table-IsWithin : IsWithin tox_outbox_capacity table
unfolding lookup
table-IsWithin = ((refl, (refl, tt)), λ n. ground arith)

operations-IsWithin_example :
    IsWithin tox_outbox_capacity
      (enqueue digits 9 true 7 (1 ∷ []) MessageKind.text transport).1.outbox
    × IsWithin tox_outbox_capacity (queued_messages digits 9 true transport).1.outbox
    × IsWithin tox_outbox_capacity (flush_outbox two_taker 7 0 table).2
operations-IsWithin_example =
    operations-IsWithin digits two_taker 9 true 7 (1 ∷ []) MessageKind.text 0 transport
      table-IsWithin

abbrev repeat {ℓ} : {A : Type ℓ} → ℕ → A → List A
repeat zero x = []
repeat (suc n) x = x ∷ repeat n x

abbrev arrival : Event
arrival = pushes 9 true 7 (1 ∷ []) MessageKind.text

abbrev empty_world : World
empty_world = record {
  transport = record transport { outbox = [] };
  in_hand = none;
  sent = [];
  direct = [];
  accepted = [];
}

-- a full queue, one pop by the bridge, one arrival, and a failed send
abbrev overfilling : List Event
overfilling = repeat 32 arrival ++ pop_front 7 ∷ arrival ∷ send_fails ∷ []

abbrev queue_length : Option World → ℕ
queue_length none = 0
queue_length (some w) = length (queue_of 7 w.transport.outbox)

-- The queue of friend 7 then holds one payload more than the capacity.
overfilled : queue_length (run digits overfilling empty_world) ≡ suc tox_outbox_capacity
unfolding run step pop_step answer_step lookup insert remove push_front pop_outbox enqueue_pruned
    prune_outbox prune_queue queued_age persist
overfilled = refl

abbrev moved : List Event
moved = arrival ∷ arrival ∷ pop_front 7 ∷ prunes 9 ∷ sends 7 (2 ∷ []) ∷ arrival ∷ send_succeeds ∷ []

abbrev or_empty : Option World → World
or_empty none = empty_world
or_empty (some w) = w

empty-IsSafe : IsSafe empty_world
unfolding lookup
empty-IsSafe = (tt, λ n. (Sub.refl [], omega arith))

run-IsSafe_example : IsSafe (or_empty (run digits moved empty_world))
unfolding run step pop_step answer_step lookup insert remove push_front pop_outbox enqueue_pruned
    prune_outbox prune_queue queued_age persist
run-IsSafe_example =
    run-IsSafe digits moved empty_world (or_empty (run digits moved empty_world)) empty-IsSafe refl
