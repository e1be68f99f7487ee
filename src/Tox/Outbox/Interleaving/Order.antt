-- ===== src/Tox/Outbox/Interleaving/Order.antt =====
-- The queues of the outbox in every interleaving of the bridge with the actor.
use mathlib.Core.Path.{subst, subst₂}
use mathlib.Core.List.{Sublist}
use mathlib.Core.List.Sublist as Sub
use meta_text.Prelude.{
  ℕ, ◌+◌, ◌≤◌, ◌≡◌, refl, sym, ap, ◌∙◌, Bool, true, false, List, [], ◌∷◌, ◌++◌, Option, none, some,
  length, length-append, append_nil, append_assoc, Bool-cases, inl, inr, ◌==◌, ltb, if◌then◌else◌,
  arith,
}
use meta_text.Prelude.Assoc.{number_key}
use meta_text.Prelude.Assoc.Distinct.{Distinct}
use meta_text.Hex.{Hex}
use meta_text.Net.Frame.{MessageKind}
use meta_text.Tox.State.{
  QueuedMessage, Queue, ToxTransport, queued_age, tox_outbox_ttl, tox_outbox_capacity, fetch_add,
  persist,
}
use meta_text.Tox.Outbox.{prune_queue, prune_outbox, enqueue_pruned}
use meta_text.Tox.Outbox.Queues.{
  queue_of, length-prune_queue, queue_of-prune_outbox, prune_outbox-Distinct, queue_of-push_front,
  in_front, queue_of-pop_outbox, pop_outbox-Distinct, push_front-Distinct,
}
use meta_text.Tox.Outbox.Bounds.{enqueue_pruned-verdict, persist-outbox}
use meta_text.Tox.Outbox.Interleaving.{
  World, Event, pop_front, send_succeeds, send_fails, prunes, publishes, pushes, sends,
  accepted_entry, pop_step, answer_step, step, run, popped_world, refused_world,
}

-- the entries of a history that are for friend n
abbrev pub entries_for : ℕ → List (ℕ × QueuedMessage) → Queue
entries_for n [] = []
entries_for n ((k, m) ∷ log) = let rest = entries_for n log in if k == n then m ∷ rest else rest

entries_for-append :
    (n : ℕ) (a b : List (ℕ × QueuedMessage))
    → entries_for n (a ++ b) ≡ entries_for n a ++ entries_for n b
entries_for-append n [] b = refl
entries_for-append n ((k, m) ∷ a) b = ground (arith, entries_for-append n a b)

abbrev pub hand_for : ℕ → Option (ℕ × QueuedMessage) → Option QueuedMessage
hand_for n none = none
hand_for n (some (k, m)) = if k == n then some m else none

-- the payloads for n that wait: what is in the hand, then the queue
abbrev pub waiting : ℕ → World → Queue
waiting n w = in_front (hand_for n w.in_hand) (queue_of n w.transport.outbox)

prune_queue-Sublist : (now : ℕ) (q : Queue) → Sublist (prune_queue now q) q
unfolding prune_queue
prune_queue-Sublist now [] = Sub.refl []
prune_queue-Sublist now (m ∷ q) =
    let later = prune_queue-Sublist now q in
    elim (Bool-cases (ltb (queued_age now m.queued_at) tox_outbox_ttl)) [
      | inl e ↦ rw (e) (Sub.cons-cons m later)
      | inr e ↦ rw (e) (Sub.cons m later)
    ]

in_front-append : (h : Option QueuedMessage) (q x : Queue) → in_front h (q ++ x) ≡ in_front h q ++ x
in_front-append none q x = refl
in_front-append (some m) q x = refl

in_front-Sublist :
    (h : Option QueuedMessage) {a b : Queue} → Sublist a b → Sublist (in_front h a) (in_front h b)
in_front-Sublist none s = s
in_front-Sublist (some m) s = Sub.cons-cons m s

-- One queue per friend; for each friend, what was sent and then what waits is what was accepted, with
-- some entries left out; and at most 33 payloads wait.
abbrev pub IsSafe : World → Type 0
IsSafe w =
    Distinct w.transport.outbox
    × ((n : ℕ)
        → Sublist (entries_for n w.sent ++ waiting n w) (entries_for n w.accepted)
          × (length (waiting n w) ≤ tox_outbox_capacity + 1))

abbrev HoldsSafe : Option World → Type 0
HoldsSafe none = Unit
HoldsSafe (some w) = IsSafe w

-- the same payloads wait, in the same order
same-IsSafe :
    (w w' : World)
    → Distinct w'.transport.outbox
    → w.sent ≡ w'.sent
    → w.accepted ≡ w'.accepted
    → ((n : ℕ) → waiting n w ≡ waiting n w')
    → IsSafe w
    → IsSafe w'
same-IsSafe w w' d sent accepted same (e, safe) = (
  d,
  λ n.
      let (order, short) = safe n in
      (
        subst (λ a. Sublist (entries_for n w'.sent ++ waiting n w') (entries_for n a)) accepted
            (subst (λ s. Sublist (entries_for n s ++ waiting n w') (entries_for n w.accepted)) sent
              (subst (λ x. Sublist (entries_for n w.sent ++ x) (entries_for n w.accepted)) (same n)
                order)),
        subst (λ x. length x ≤ tox_outbox_capacity + 1) (same n) short,
      ),
)

-- The entry in the hand moves to the history.
sent-waiting :
    (n : ℕ) (held : ℕ × QueuedMessage) (sent : List (ℕ × QueuedMessage)) (q : Queue)
    → entries_for n sent ++ in_front (hand_for n (some held)) q
      ≡ entries_for n (sent ++ held ∷ []) ++ q
sent-waiting n (k, m) sent q = ground (
  arith,
  entries_for-append n sent ((k, m) ∷ []),
  append_assoc (entries_for n sent) (m ∷ []) q,
  append_assoc (entries_for n sent) [] q,
)

pop-IsSafe :
    (n : ℕ) (w : World) (h : Option (ℕ × QueuedMessage))
    → w.in_hand ≡ h
    → IsSafe w
    → HoldsSafe (pop_step n h w)
unfolding pop_step
pop-IsSafe n w (some held) e safe = tt
pop-IsSafe n w none e (d, safe) =
    let outbox = w.transport.outbox in
    same-IsSafe w (popped_world n w) (pop_outbox-Distinct n outbox d) refl refl
      (λ j. ground (arith, e, queue_of-pop_outbox n j outbox)) (d, safe)

answer-IsSafe :
    (success : Bool) (w : World) (h : Option (ℕ × QueuedMessage))
    → w.in_hand ≡ h
    → IsSafe w
    → HoldsSafe (answer_step success h w)
unfolding answer_step
answer-IsSafe success w none e safe = tt
answer-IsSafe false w (some (n, m)) e (d, safe) =
    let outbox = w.transport.outbox in
    same-IsSafe w (refused_world n m w) (push_front-Distinct n m outbox d) refl refl
      (λ j. ground (arith, e, queue_of-push_front n j m outbox)) (d, safe)
answer-IsSafe true w (some (n, m)) e (d, safe) =
    let outbox = w.transport.outbox in
    (
      d,
      λ j.
          let (order, short) = safe j in
          (
            subst (λ x. Sublist x (entries_for j w.accepted))
                (ap (λ h. entries_for j w.sent ++ in_front (hand_for j h) (queue_of j outbox)) e
                  ∙ sent-waiting j (n, m) w.sent (queue_of j outbox))
                order,
            ground (arith, e, short),
          ),
    )

length-in_front :
    (h : Option QueuedMessage) (q : Queue)
    → length (in_front h q) ≡ (elim h [ none ↦ length q | some m ↦ length q + 1 ])
length-in_front none q = refl
length-in_front (some m) q = omega arith

-- Entries are left out of a queue and x goes to its end.
grown-Sublist :
    (h : Option QueuedMessage) (d q q' x a : Queue)
    → Sublist q' q
    → Sublist (d ++ in_front h q) a
    → Sublist (d ++ in_front h (q' ++ x)) (a ++ x)
grown-Sublist h d q q' x a fewer s =
    let pruned = Sub.append (Sub.refl d) (in_front-Sublist h fewer) in
    let moved : (d ++ in_front h q') ++ x ≡ d ++ in_front h (q' ++ x) =
      append_assoc d (in_front h q') x ∙ ap (λ t. d ++ t) (sym (in_front-append h q' x)) in
    subst (λ t. Sublist t (a ++ x)) moved (Sub.append (Sub.trans pruned s) (Sub.refl x))

module _ (hex : Hex) where
  pushes-IsSafe :
      (now : ℕ) (published : Bool) (n : ℕ) (payload : List ℕ) (kind : MessageKind) (w : World)
      → IsSafe w
      → HoldsSafe (step hex (pushes now published n payload kind) w)
  unfolding step
  pushes-IsSafe now published n payload kind w (d, safe) =
      let message_id = w.transport.next_message_id in
      let entry : QueuedMessage = record {
        message_id = message_id;
        body = payload;
        kind = kind;
        queued_at = now;
      } in
      let t : ToxTransport = record w.transport { next_message_id = fetch_add message_id 1 } in
      let (outcome, queues, counter, distinct) =
        enqueue_pruned-verdict hex now published message_id n payload kind t d in
      let result = enqueue_pruned hex now published message_id n payload kind t in
      (
        distinct,
        λ j.
            let (order, short) = safe j in
            let added = entries_for j (accepted_entry result.0 (n, entry)) in
            let q = queue_of j t.outbox in
            let longer : queue_of j result.1.outbox ≡ q ++ added =
              ground (arith, queues j, outcome, append_nil q) in
            let h = hand_for j w.in_hand in
            let d = entries_for j w.sent in
            let a = entries_for j w.accepted in
            let order' : Sublist (d ++ in_front h (queue_of j result.1.outbox)) (a ++ added) =
              subst (λ x. Sublist (d ++ in_front h x) (a ++ added)) (sym longer)
                (grown-Sublist h d q q added a (Sub.refl q) order) in
            (
              subst (Sublist (d ++ in_front h (queue_of j result.1.outbox)))
                  (sym (entries_for-append j w.accepted (accepted_entry result.0 (n, entry))))
                  order',
              ground (
                arith,
                queues j,
                short,
                length-in_front h q,
                length-in_front h (queue_of j result.1.outbox),
                length-append q (entry ∷ []),
              ),
            ),
      )

  prunes-IsSafe : (now : ℕ) (w : World) → IsSafe w → HoldsSafe (step hex (prunes now) w)
  unfolding step
  prunes-IsSafe now w (d, safe) =
      let outbox = w.transport.outbox in
      let pruned = (prune_outbox now outbox).0 in
      (
        prune_outbox-Distinct now outbox d,
        λ j.
            let (order, short) = safe j in
            let h = hand_for j w.in_hand in
            let d' = entries_for j w.sent in
            let a = entries_for j w.accepted in
            let q = queue_of j outbox in
            let same : prune_queue now q ++ [] ≡ queue_of j pruned =
              append_nil (prune_queue now q) ∙ sym (queue_of-prune_outbox now j outbox d) in
            (
              subst₂ (λ x y. Sublist (d' ++ in_front h x) y) same (append_nil a)
                  (grown-Sublist h d' q (prune_queue now q) [] a (prune_queue-Sublist now q) order),
              ground (
                arith,
                same,
                append_nil (prune_queue now q),
                short,
                length-in_front h q,
                length-prune_queue now q,
                length-in_front h (queue_of j pruned),
              ),
            ),
      )

  publishes-IsSafe :
      (published : Bool) (w : World) → IsSafe w → HoldsSafe (step hex (publishes published) w)
  unfolding step
  publishes-IsSafe published w (d, safe) =
      let same = sym (persist-outbox hex published w.transport) in
      same-IsSafe w (record w { transport = persist hex published w.transport })
        (subst Distinct same d) refl refl
        (λ j. ap (λ o. in_front (hand_for j w.in_hand) (queue_of j o)) same) (d, safe)

  step-IsSafe : (e : Event) (w : World) → IsSafe w → HoldsSafe (step hex e w)
  unfolding step
  step-IsSafe (pop_front n) w safe = pop-IsSafe n w w.in_hand refl safe
  step-IsSafe send_succeeds w safe = answer-IsSafe true w w.in_hand refl safe
  step-IsSafe send_fails w safe = answer-IsSafe false w w.in_hand refl safe
  step-IsSafe (prunes now) w safe = prunes-IsSafe now w safe
  step-IsSafe (publishes published) w safe = publishes-IsSafe published w safe
  step-IsSafe (pushes now published n payload kind) w safe =
      pushes-IsSafe now published n payload kind w safe
  step-IsSafe (sends n payload) w safe = safe

  first-IsSafe :
      (es : List Event) (w' : World) (first : Option World)
      → ((w : World) → IsSafe w → run hex es w ≡ some w' → IsSafe w')
      → HoldsSafe first
      → (elim first [ none ↦ none | some w ↦ run hex es w ]) ≡ some w'
      → IsSafe w'
  first-IsSafe es w' none later safe e = ground (arith, e)
  first-IsSafe es w' (some w) later safe e = later w safe e

  -- A state is safe where each friend has one queue, the payloads that the bridge sent to a friend from
  -- its queue, followed by those that wait for it (the one in the bridge's hand first), are a sublist of
  -- those accepted for its queue, in the order of acceptance, and at most 33 wait. Whatever locked pieces
  -- of their work the bridge and the actor do in turn from a safe state, also where the actor sends
  -- payloads to the client in between that never were in a queue, the state after it is safe.
  pub run-IsSafe : (es : List Event) (w w' : World) → IsSafe w → run hex es w ≡ some w' → IsSafe w'
  unfolding run
  run-IsSafe [] w w' safe e = subst HoldsSafe e safe
  run-IsSafe (event ∷ es) w w' safe e =
      first-IsSafe es w' (step hex event w) (λ w₁ safe₁ e₁. run-IsSafe es w₁ w' safe₁ e₁)
        (step-IsSafe event w safe) e
