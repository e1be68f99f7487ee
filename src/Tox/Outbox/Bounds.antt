-- ===== src/Tox/Outbox/Bounds.antt =====
-- The bound of a queue, and what `enqueue` does on every branch.
use mathlib.Core.Path.{subst}
use meta_text.Prelude.{
  ℕ, zero, suc, ◌+◌, ◌≤◌, ◌≡◌, refl, sym, ap, ◌∙◌, Bool, true, false, List, [], ◌∷◌, ◌++◌, Option,
  none, some, length, length-append, Bool-cases, inl, inr, ◌==◌, ltb, leb, if◌then◌else◌, arith,
}
use meta_text.Prelude.Assoc.{insert, number_key}
use meta_text.Prelude.Assoc.Distinct.{Distinct, insert-Distinct}
use meta_text.Hex.{Hex}
use meta_text.Net.Frame.{MessageKind}
use meta_text.Tox.State.{
  QueuedMessage, Queue, ToxOutbox, ToxTransport, tox_outbox_capacity, fetch_add, persist,
}
use meta_text.Tox.Outbox.{
  ToxClient, tox_message_kind, SendOutcome, dropped, queued, pop_outbox, push_front, flush_loop,
  flush_outbox, prune_queue, prune_outbox, enqueue, enqueue_pruned, queued_messages,
}
use meta_text.Tox.Outbox.Flush.{deliver, flush_outbox-deliver}
use meta_text.Tox.Outbox.Queues.{
  queue_of, length-prune_queue, queue_of-prune_outbox, prune_outbox-Distinct, queue_of-insert,
  pop_outbox-Distinct,
}

-- Each friend has one queue, of at most `capacity` payloads.
abbrev pub IsWithin : ℕ → ToxOutbox → Type 0
IsWithin capacity outbox = Distinct outbox × ((n : ℕ) → length (queue_of n outbox) ≤ capacity)

prune_outbox-IsWithin :
    (now : ℕ) (outbox : ToxOutbox)
    → IsWithin tox_outbox_capacity outbox
    → IsWithin tox_outbox_capacity (prune_outbox now outbox).0
prune_outbox-IsWithin now outbox (d, short) = (
  prune_outbox-Distinct now outbox d,
  λ j. ground (
    arith,
    queue_of-prune_outbox now j outbox d,
    short j,
    length-prune_queue now (queue_of j outbox),
  ),
)

module _ (hex : Hex) where
  pub persist-outbox :
      (published : Bool) (t : ToxTransport) → (persist hex published t).outbox ≡ t.outbox
  unfolding persist
  persist-outbox true t = refl
  persist-outbox false t = refl

  persist-counters :
      (published : Bool) (t : ToxTransport)
      → ((persist hex published t).next_message_id ≡ t.next_message_id)
        × ((persist hex published t).expired ≡ t.expired)
  unfolding persist
  persist-counters true t = (refl, refl)
  persist-counters false t = (refl, refl)

  -- the queue of the friend that is written to, where its pruned queue is q
  abbrev pub appended : Queue → QueuedMessage → Queue
  appended q entry = if leb tox_outbox_capacity (length q) then q else q ++ entry ∷ []

  -- the state in which `enqueue` tries the queue
  abbrev pruned_state : ℕ → ToxTransport → ToxTransport
  pruned_state now t = record t {
    outbox = (prune_outbox now t.outbox).0;
    expired = fetch_add t.expired (prune_outbox now t.outbox).1;
    next_message_id = fetch_add t.next_message_id 1;
  }

  -- what the attempt to put `entry` after the queue q gives
  abbrev pub attempt : Queue → ℕ → SendOutcome
  attempt q message_id =
      if leb tox_outbox_capacity (length q) then dropped else queued message_id (length q + 1)

  pub enqueue_pruned-verdict :
      (now : ℕ) (published : Bool) (message_id n : ℕ) (payload : List ℕ) (kind : MessageKind)
      (t : ToxTransport)
      → Distinct t.outbox
      → let entry : QueuedMessage = record {
        message_id = message_id;
        body = payload;
        kind = kind;
        queued_at = now;
      } in
        let q = queue_of n t.outbox in
        let result = enqueue_pruned hex now published message_id n payload kind t in
        (result.0 ≡ attempt q message_id)
        × ((j : ℕ)
            → queue_of j result.1.outbox
              ≡ (if n == j then appended q entry else queue_of j t.outbox))
        × (result.1.next_message_id ≡ t.next_message_id)
        × Distinct result.1.outbox
  unfolding enqueue_pruned
  enqueue_pruned-verdict now published message_id n payload kind t d =
      let entry : QueuedMessage = record {
        message_id = message_id;
        body = payload;
        kind = kind;
        queued_at = now;
      } in
      let longer = queue_of n t.outbox ++ entry ∷ [] in
      let later : ToxTransport = record t { outbox = insert n longer t.outbox } in
      let counted : length longer ≡ length (queue_of n t.outbox) + 1 =
        omega (arith, length-append (queue_of n t.outbox) (entry ∷ [])) in
      let stored = persist-outbox published later in
      elim (Bool-cases (leb tox_outbox_capacity (length (queue_of n t.outbox)))) [
        | inl full ↦ rw (full) (refl, λ j. ground arith, refl, d)
        | inr free ↦ rw (free) (
          ap (queued message_id) counted,
          λ j. ap (queue_of j) stored ∙ queue_of-insert n j longer t.outbox,
          (persist-counters published later).0,
          subst Distinct (sym stored) (insert-Distinct n longer t.outbox d),
        )
      ]

  -- the outcome, the queues, the counter and the table after the enqueueing
  abbrev pub Enqueued :
      ℕ → ℕ → List ℕ → MessageKind → ToxTransport → SendOutcome × ToxTransport → Type 0
  Enqueued now n payload kind t result =
      let entry : QueuedMessage = record {
        message_id = t.next_message_id;
        body = payload;
        kind = kind;
        queued_at = now;
      } in
      let q = prune_queue now (queue_of n t.outbox) in
      (result.0 ≡ (
        if leb tox_outbox_capacity (length q)
        then dropped
        else queued t.next_message_id (length q + 1)))
      × ((j : ℕ)
          → queue_of j result.1.outbox
            ≡ (if n == j then appended q entry else prune_queue now (queue_of j t.outbox)))
      × (result.1.next_message_id ≡ fetch_add t.next_message_id 1)
      × Distinct result.1.outbox

  -- `enqueue` to friend n, on a table with one queue per friend: every queue is pruned, the payload goes
  -- to the end of the queue of n where that holds fewer than 32 payloads and is dropped where it does
  -- not, no other queue changes further, the outcome says which, with the identifier and the position,
  -- and the identifier is spent in both cases.
  pub enqueue-verdict :
      (now : ℕ) (published : Bool) (n : ℕ) (payload : List ℕ) (kind : MessageKind)
      (t : ToxTransport)
      → Distinct t.outbox
      → Enqueued now n payload kind t (enqueue hex now published n payload kind t)
  unfolding enqueue
  enqueue-verdict now published n payload kind t d =
      let pruned = queue_of-prune_outbox now n t.outbox d in
      let d' = prune_outbox-Distinct now t.outbox d in
      let (outcome, queues, counter, distinct) =
        enqueue_pruned-verdict now published t.next_message_id n payload kind (pruned_state now t)
          d' in
      (
        outcome ∙ ap (λ q. attempt q t.next_message_id) pruned,
        λ j. queues j ∙ ground (arith, pruned, queue_of-prune_outbox now j t.outbox d),
        counter,
        distinct,
      )

  enqueue-IsWithin :
      (now : ℕ) (published : Bool) (n : ℕ) (payload : List ℕ) (kind : MessageKind)
      (t : ToxTransport)
      → IsWithin tox_outbox_capacity t.outbox
      → IsWithin tox_outbox_capacity (enqueue hex now published n payload kind t).1.outbox
  enqueue-IsWithin now published n payload kind t (d, short) =
      let entry : QueuedMessage = record {
        message_id = t.next_message_id;
        body = payload;
        kind = kind;
        queued_at = now;
      } in
      let (outcome, queues, counter, distinct) = enqueue-verdict now published n payload kind t d in
      let q = prune_queue now (queue_of n t.outbox) in
      (
        distinct,
        λ j. ground (
          arith,
          queues j,
          short j,
          short n,
          length-prune_queue now (queue_of j t.outbox),
          length-prune_queue now (queue_of n t.outbox),
          length-append q (entry ∷ []),
        ),
      )

  pub queued_messages-outbox :
      (now : ℕ) (published : Bool) (t : ToxTransport)
      → (queued_messages hex now published t).1.outbox ≡ (prune_outbox now t.outbox).0
  unfolding queued_messages
  queued_messages-outbox now published t = elim (Bool-cases (ltb 0 (prune_outbox now t.outbox).1)) [
    | inl e ↦
        let counted = fetch_add t.expired (prune_outbox now t.outbox).1 in
        rw (e) (
          persist-outbox published
            (record t { outbox = (prune_outbox now t.outbox).0; expired = counted }))
    | inr e ↦ rw (e) refl
  ]

-- one round of the loop, on what `pop_outbox` gave
flush_round-Distinct :
    (tox : ToxClient) (fuel n sent : ℕ) (c : tox.Client) (outbox : ToxOutbox)
    (entry : Option QueuedMessage)
    → ((c' : tox.Client) → Distinct (flush_loop tox fuel n (sent + 1) c' (pop_outbox n outbox).1).2)
    → Distinct (pop_outbox n outbox).1
    → (pop_outbox n outbox).0 ≡ entry
    → Distinct (flush_loop tox (suc fuel) n sent c outbox).2
unfolding flush_loop push_front
flush_round-Distinct tox fuel n sent c outbox none later d e =
    let ended : (flush_loop tox (suc fuel) n sent c outbox).2 ≡ (pop_outbox n outbox).1 =
      rw (flush_loop, e) refl in
    subst Distinct (sym ended) d
flush_round-Distinct tox fuel n sent c outbox (some m) later d e =
    let (accepted, c') = tox.send n m.body (tox_message_kind m.kind) c in
    let popped = (pop_outbox n outbox).1 in
    let round : (flush_loop tox (suc fuel) n sent c outbox).2
        ≡ (if accepted
            then flush_loop tox fuel n (sent + 1) c' popped
            else (sent, c', push_front n m popped)).2 =
      rw (flush_loop, e) refl in
    elim (Bool-cases accepted) [
      | inl taken ↦ subst Distinct (sym (round ∙ rw (taken) refl)) (later c')
      | inr refused ↦
          subst Distinct (sym (round ∙ rw (refused) refl))
            (insert-Distinct n (m ∷ queue_of n popped) popped d)
    ]

flush_loop-Distinct :
    (tox : ToxClient) (fuel n sent : ℕ) (c : tox.Client) (outbox : ToxOutbox)
    → Distinct outbox
    → Distinct (flush_loop tox fuel n sent c outbox).2
unfolding flush_loop
flush_loop-Distinct tox zero n sent c outbox d = d
flush_loop-Distinct tox (suc fuel) n sent c outbox d =
    let popped = (pop_outbox n outbox).1 in
    let d' = pop_outbox-Distinct n outbox d in
    flush_round-Distinct tox fuel n sent c outbox (pop_outbox n outbox).0
      (λ c'. flush_loop-Distinct tox fuel n (sent + 1) c' popped d') d' refl

flush_outbox-IsWithin :
    (tox : ToxClient) (n : ℕ) (c : tox.Client) (outbox : ToxOutbox)
    → IsWithin tox_outbox_capacity outbox
    → IsWithin tox_outbox_capacity (flush_outbox tox n c outbox).2
unfolding flush_outbox
flush_outbox-IsWithin tox n c outbox (d, short) =
    let plan = deliver tox n c (queue_of n outbox) in
    let (count, client, whole, maps) = flush_outbox-deliver tox n c outbox in
    let fuel = suc (length (queue_of n outbox)) in
    (
      flush_loop-Distinct tox fuel n 0 c outbox d,
      λ j. ground (arith, maps j, short j, short n, whole, length-append plan.delivered plan.rest),
    )

-- Each of `enqueue`, `queued_messages` and `flush_outbox`, run without another between its parts, keeps
-- one queue per friend and at most 32 payloads in each.
pub operations-IsWithin :
    (hex : Hex) (tox : ToxClient) (now : ℕ) (published : Bool) (n : ℕ) (payload : List ℕ)
    (kind : MessageKind)
    → (c : tox.Client) (t : ToxTransport) → IsWithin tox_outbox_capacity t.outbox
    → IsWithin tox_outbox_capacity (enqueue hex now published n payload kind t).1.outbox
      × IsWithin tox_outbox_capacity (queued_messages hex now published t).1.outbox
      × IsWithin tox_outbox_capacity (flush_outbox tox n c t.outbox).2
operations-IsWithin hex tox now published n payload kind c t (d, short) = (
  enqueue-IsWithin hex now published n payload kind t (d, short),
  subst (IsWithin tox_outbox_capacity) (sym (queued_messages-outbox hex now published t))
      (prune_outbox-IsWithin now t.outbox (d, short)),
  flush_outbox-IsWithin tox n c t.outbox (d, short),
)
