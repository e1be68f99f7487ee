-- ===== src/Tox/Outbox/Queues.antt =====
-- What each operation of the outbox does to the queue of one friend.
use meta_text.Prelude.{
  ℕ, ◌≤◌, ◌≡◌, refl, true, false, List, [], ◌∷◌, Option, none, some, length, Bool-cases, inl, inr,
  ◌⊎◌, ◌==◌, if◌then◌else◌, arith,
}
use meta_text.Prelude.Assoc.{lookup, insert, lookup-insert, lookup-remove, number_key}
use meta_text.Prelude.Assoc.Distinct.{Distinct, insert-Distinct, remove-Distinct}
use meta_text.Tox.State.{QueuedMessage, Queue, ToxOutbox}
use meta_text.Tox.Outbox.{
  queue_or_default, pop_from, pop_outbox, push_front, prune_queue, prune_outbox, is_nil,
}

-- the payloads that wait for friend n, in their order
abbrev pub queue_of : ℕ → ToxOutbox → Queue
queue_of n outbox = queue_or_default (lookup n outbox)

pub length-prune_queue : (now : ℕ) (q : Queue) → length (prune_queue now q) ≤ length q
unfolding prune_queue
length-prune_queue now [] = omega arith
length-prune_queue now (m ∷ q) = ground (arith, length-prune_queue now q)

lookup-prune_outbox-none :
    (now n : ℕ) (outbox : ToxOutbox)
    → lookup n outbox ≡ none
    → lookup n (prune_outbox now outbox).0 ≡ none
unfolding prune_outbox lookup
lookup-prune_outbox-none now n [] fresh = refl
lookup-prune_outbox-none now n ((k, q) ∷ outbox) fresh =
    ground (arith, fresh, lookup-prune_outbox-none now n outbox)

is_nil_lem {ℓ} : {A : Type ℓ} (xs : List A) → is_nil xs ≡ true → xs ≡ []
is_nil_lem [] e = refl
is_nil_lem (x ∷ xs) e = ground (arith, e)

==-cases : (k n : ℕ) → ((k == n ≡ true) × (k ≡ n)) ⊎ (k == n ≡ false)
==-cases k n = elim (Bool-cases (k == n)) [ inl e ↦ inl (e, ground (arith, e)) | inr e ↦ inr e ]

-- Pruning the table prunes each queue.
pub queue_of-prune_outbox :
    (now n : ℕ) (outbox : ToxOutbox)
    → Distinct outbox
    → queue_of n (prune_outbox now outbox).0 ≡ prune_queue now (queue_of n outbox)
unfolding prune_outbox lookup prune_queue
queue_of-prune_outbox now n [] d = refl
queue_of-prune_outbox now n ((k, q) ∷ outbox) (fresh, d) =
    let later = queue_of-prune_outbox now n outbox d in
    let fresh' = lookup-prune_outbox-none now k outbox fresh in
    elim (==-cases k n) [
      | inl (e, same) ↦ ground (arith, e, same, fresh', is_nil_lem (prune_queue now q))
      | inr e ↦ ground (arith, e, later)
    ]

pub prune_outbox-Distinct :
    (now : ℕ) (outbox : ToxOutbox) → Distinct outbox → Distinct (prune_outbox now outbox).0
unfolding prune_outbox
prune_outbox-Distinct now [] d = tt
prune_outbox-Distinct now ((k, q) ∷ outbox) (fresh, d) =
    let later = prune_outbox-Distinct now outbox d in
    let fresh' = lookup-prune_outbox-none now k outbox fresh in ground (arith, later, fresh')

pub queue_of-insert :
    (n j : ℕ) (q : Queue) (outbox : ToxOutbox)
    → queue_of j (insert n q outbox) ≡ (if n == j then q else queue_of j outbox)
queue_of-insert n j q outbox = ground (arith, lookup-insert n j q outbox)

pub queue_of-push_front :
    (n j : ℕ) (m : QueuedMessage) (outbox : ToxOutbox)
    → queue_of j (push_front n m outbox)
      ≡ (if n == j then m ∷ queue_of n outbox else queue_of j outbox)
unfolding push_front
queue_of-push_front n j m outbox = queue_of-insert n j (m ∷ queue_of n outbox) outbox

abbrev pub in_front : Option QueuedMessage → Queue → Queue
in_front none q = q
in_front (some m) q = m ∷ q

pop_from-queue_of :
    (n j : ℕ) (outbox : ToxOutbox) (found : Option Queue)
    → lookup n outbox ≡ found
    → queue_of j outbox ≡ (
        if n == j
        then in_front (pop_from n outbox found).0 (queue_of j (pop_from n outbox found).1)
        else queue_of j (pop_from n outbox found).1)
unfolding pop_from
pop_from-queue_of n j outbox none e = ground (arith, e)
pop_from-queue_of n j outbox (some []) e = ground (arith, e, lookup-remove n j outbox)
pop_from-queue_of n j outbox (some (m ∷ q)) e = ground (arith, e, lookup-insert n j q outbox)

-- What `pop_outbox` takes is the front of the queue.
pub queue_of-pop_outbox :
    (n j : ℕ) (outbox : ToxOutbox)
    → queue_of j outbox ≡ (
        if n == j
        then in_front (pop_outbox n outbox).0 (queue_of j (pop_outbox n outbox).1)
        else queue_of j (pop_outbox n outbox).1)
unfolding pop_outbox
queue_of-pop_outbox n j outbox = pop_from-queue_of n j outbox (lookup n outbox) refl

pop_from-Distinct :
    (n : ℕ) (outbox : ToxOutbox) (found : Option Queue)
    → Distinct outbox
    → Distinct (pop_from n outbox found).1
unfolding pop_from
pop_from-Distinct n outbox none d = d
pop_from-Distinct n outbox (some []) d = remove-Distinct n outbox d
pop_from-Distinct n outbox (some (m ∷ q)) d = insert-Distinct n q outbox d

pub pop_outbox-Distinct :
    (n : ℕ) (outbox : ToxOutbox) → Distinct outbox → Distinct (pop_outbox n outbox).1
unfolding pop_outbox
pop_outbox-Distinct n outbox d = pop_from-Distinct n outbox (lookup n outbox) d

pub push_front-Distinct :
    (n : ℕ) (m : QueuedMessage) (outbox : ToxOutbox)
    → Distinct outbox
    → Distinct (push_front n m outbox)
unfolding push_front
push_front-Distinct n m outbox d = insert-Distinct n (m ∷ queue_of n outbox) outbox d
