-- ===== src/Tox/Outbox/Interleaving.antt =====
-- The outbox of crates/meta-text-backend/src/transport.rs under its two users, the bridge task and the
-- actor. Each locks the outbox for one piece of its work at a time: a pop or a push to the front of
-- `flush_outbox`, a pruning, or the push to the end of `enqueue`; the other may run between two pieces.
-- `enqueue` is `prunes` and then `pushes`, where a `pushes` that does not publish and a `publishes` after
-- it are an enqueueing whose publication comes later; the counter of identifiers is the actor's alone, so
-- that it may move with the push. `queued_messages` is `prunes` and then `publishes`, and so is
-- what `forward_event` does before and after the flush. A payload that was popped and not yet sent is in
-- the bridge's hand. `send_payload` does not look at the outbox while the friend is online: its payload
-- goes to the client at once, and may overtake those that wait.
pub mod Order
use meta_text.Prelude.{
  ℕ, ◌+◌, ◌-◌, ◌%◌, ◌==◌, Bool, true, false, List, [], ◌∷◌, ◌++◌, Option, none, some, if◌then◌else◌,
  ◌≡◌, refl,
}
use meta_text.Prelude.Assoc.{lookup, number_key}
use meta_text.Hex.{Hex}
use meta_text.Net.Frame.{MessageKind}
use meta_text.Tox.State.{QueuedMessage, Queue, ToxOutbox, ToxTransport, fetch_add, persist}
use meta_text.Tox.Outbox.{
  SendOutcome, dropped, queued, pop_outbox, push_front, prune_outbox, enqueue_pruned, enqueue,
}

-- `sent`, `direct` and `accepted` are histories: what the client took from the bridge, what it took from
-- `send_payload`, and what `enqueue` put into a queue.
pub record World : Type 0 where
  pub transport : ToxTransport
  pub in_hand : Option (ℕ × QueuedMessage)
  pub sent : List (ℕ × QueuedMessage)
  pub direct : List (ℕ × List ℕ)
  pub accepted : List (ℕ × QueuedMessage)

pub data Event : Type 0 where
  -- the bridge: a pop, and the two answers of the client
  pop_front : ℕ → Event
  send_succeeds send_fails : Event
  -- either, with the clock, or with whether the file was published
  prunes : ℕ → Event
  publishes : Bool → Event
  -- the actor: a payload that is put behind the queue, and one that the client takes at once
  pushes : ℕ → Bool → ℕ → List ℕ → MessageKind → Event
  sends : ℕ → List ℕ → Event

abbrev pub accepted_entry : SendOutcome → ℕ × QueuedMessage → List (ℕ × QueuedMessage)
accepted_entry SendOutcome.dropped entry = []
accepted_entry (SendOutcome.sent message_id peers) entry = []
accepted_entry (queued message_id position) entry = entry ∷ []

abbrev pub popped_world : ℕ → World → World
popped_world n w =
    let (entry, outbox) = pop_outbox n w.transport.outbox in
    let t : ToxTransport = record w.transport { outbox = outbox } in
    let hand : Option (ℕ × QueuedMessage) = elim entry [ none ↦ none | some m ↦ some (n, m) ] in
    record w { transport = t; in_hand = hand }

abbrev pub refused_world : ℕ → QueuedMessage → World → World
refused_world n m w =
    let t : ToxTransport = record w.transport { outbox = push_front n m w.transport.outbox } in
    record w { transport = t; in_hand = none }

unfoldable pub pop_step : ℕ → Option (ℕ × QueuedMessage) → World → Option World
pop_step n (some held) w = none
pop_step n none w = some (popped_world n w)

unfoldable pub answer_step : Bool → Option (ℕ × QueuedMessage) → World → Option World
answer_step success none w = none
answer_step true (some held) w = some (record w { in_hand = none; sent = w.sent ++ held ∷ [] })
answer_step false (some (n, m)) w = some (refused_world n m w)

module _ (hex : Hex) where
  -- One event; none where the bridge is not at the point that the event names.
  unfoldable pub step : Event → World → Option World
  unfolding pop_step answer_step
  step (pop_front n) w = pop_step n w.in_hand w
  step send_succeeds w = answer_step true w.in_hand w
  step send_fails w = answer_step false w.in_hand w
  step (prunes now) w =
      let (outbox, expired) = prune_outbox now w.transport.outbox in
      some (record w {
        transport = record w.transport {
          outbox = outbox;
          expired = fetch_add w.transport.expired expired;
        };
      })
  step (publishes published) w = some (record w { transport = persist hex published w.transport })
  step (sends n payload) w = some (record w { direct = w.direct ++ (n, payload) ∷ [] })
  step (pushes now published n payload kind) w =
      let entry : QueuedMessage = record {
        message_id = w.transport.next_message_id;
        body = payload;
        kind = kind;
        queued_at = now;
      } in
      let counted : ToxTransport = record w.transport {
        next_message_id = fetch_add w.transport.next_message_id 1;
      } in
      let (outcome, t) =
        enqueue_pruned hex now published w.transport.next_message_id n payload kind counted in
      some (record w { transport = t; accepted = w.accepted ++ accepted_entry outcome (n, entry) })

  unfoldable pub run : List Event → World → Option World
  run [] w = some w
  run (e ∷ es) w = elim (step e w) [ none ↦ none | some w' ↦ run es w' ]

  -- `enqueue`, where nothing runs between its two pieces
  pub enqueue-run :
      (now : ℕ) (published : Bool) (n : ℕ) (payload : List ℕ) (kind : MessageKind) (w : World)
      → (elim (run (prunes now ∷ pushes now published n payload kind ∷ []) w) [
        | none ↦ none
        | some w' ↦ some w'.transport
      ])
        ≡ some (enqueue hex now published n payload kind w.transport).1
  unfolding run step enqueue
  enqueue-run now published n payload kind w = refl
