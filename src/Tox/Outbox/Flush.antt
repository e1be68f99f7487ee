-- ===== src/Tox/Outbox/Flush.antt =====
-- `flush_outbox` delivers a prefix of the queue, in order, and keeps the rest.
use meta_text.Prelude.{
  ℕ, suc, ◌+◌, ◌≡◌, refl, ap, [], ◌∷◌, ◌++◌, Option, none, some, length, ◌==◌, if◌then◌else◌, arith,
}
use meta_text.Prelude.Assoc.{lookup, insert, lookup-insert, lookup-remove, number_key}
use meta_text.Tox.State.{Queue, ToxOutbox}
use meta_text.Tox.Outbox.{
  ToxClient, tox_message_kind, queue_or_default, pop_outbox, push_front, flush_loop, flush_outbox,
}

module _ (tox : ToxClient) where
  open tox use {Client, send}

  pub record Delivery : Type 0 where
    pub delivered : Queue
    pub rest : Queue
    pub client : Client

  -- The specification: send from the front until the client refuses one.
  abbrev pub deliver : ℕ → Client → Queue → Delivery
  deliver n c [] = record { delivered = []; rest = []; client = c }
  deliver n c (m ∷ q) =
      let (accepted, c') = send n m.body (tox_message_kind m.kind) c in
      let later = deliver n c' q in
      if accepted
      then record later { delivered = m ∷ later.delivered }
      else record { delivered = []; rest = m ∷ q; client = c' }

  -- Nothing is lost, duplicated or reordered.
  pub deliver-append :
      (n : ℕ) (c : Client) (q : Queue) → (deliver n c q).delivered ++ (deliver n c q).rest ≡ q
  deliver-append n c [] = refl
  deliver-append n c (m ∷ q) =
      let (accepted, c') = send n m.body (tox_message_kind m.kind) c in
      let later = deliver-append n c' q in ground (arith, later)

  abbrev pub kept : Queue → Option Queue
  kept [] = none
  kept (m ∷ q) = some (m ∷ q)

  flush_loop-deliver :
      (q : Queue) (n sent : ℕ) (c : Client) (outbox : ToxOutbox)
      → lookup n outbox ≡ some q
      → ((flush_loop tox (suc (length q)) n sent c outbox).0
          ≡ sent + length (deliver n c q).delivered)
        × ((flush_loop tox (suc (length q)) n sent c outbox).1 ≡ (deliver n c q).client)
        × ((j : ℕ)
            → lookup j (flush_loop tox (suc (length q)) n sent c outbox).2
              ≡ (if n == j then kept (deliver n c q).rest else lookup j outbox))
  unfolding flush_loop pop_outbox push_front
  flush_loop-deliver [] n sent c outbox e =
      (ground arith, ground arith, λ j. ground (arith, e, lookup-remove n j outbox))
  flush_loop-deliver (m ∷ q) n sent c outbox e =
      let (accepted, c') = send n m.body (tox_message_kind m.kind) c in
      let popped = insert n q outbox in
      let here : lookup n popped ≡ some q = ground (arith, lookup-insert n n q outbox) in
      let (count, client, maps) = flush_loop-deliver q n (sent + 1) c' popped here in
      (
        ground (arith, e, count),
        ground (arith, e, client),
        λ j. ground (
          arith,
          e,
          maps j,
          lookup-insert n n q outbox,
          lookup-insert n j q outbox,
          lookup-insert n j (m ∷ q) popped,
        ),
      )

  flush_some :
      (n : ℕ) (c : Client) (outbox : ToxOutbox) (q : Queue)
      → lookup n outbox ≡ some q
      → flush_outbox tox n c outbox ≡ flush_loop tox (suc (length q)) n 0 c outbox
  unfolding flush_outbox
  flush_some n c outbox q e =
      ap (λ found. flush_loop tox (suc (length (queue_or_default found))) n 0 c outbox) e

  flush_none :
      (n : ℕ) (c : Client) (outbox : ToxOutbox)
      → lookup n outbox ≡ none
      → flush_outbox tox n c outbox ≡ (0, c, outbox)
  unfolding flush_outbox flush_loop pop_outbox
  flush_none n c outbox e = ground (arith, e)

  abbrev pub Flushed : ℕ → Client → Queue → ToxOutbox → ℕ × Client × ToxOutbox → Type 0
  Flushed n c q outbox result =
      let plan = deliver n c q in
      (result.0 ≡ length plan.delivered)
      × (result.1 ≡ plan.client)
      × (plan.delivered ++ plan.rest ≡ q)
      × ((j : ℕ) → lookup j result.2 ≡ (if n == j then kept plan.rest else lookup j outbox))

  flush_outbox_at :
      (n : ℕ) (c : Client) (outbox : ToxOutbox) (found : Option Queue)
      → lookup n outbox ≡ found
      → Flushed n c (queue_or_default found) outbox (flush_outbox tox n c outbox)
  flush_outbox_at n c outbox none e =
      rw (flush_none n c outbox e) (refl, refl, refl, λ j. ground (arith, e))
  flush_outbox_at n c outbox (some q) e =
      let (count, client, maps) = flush_loop-deliver q n 0 c outbox e in
      rw (flush_some n c outbox q e) (omega (arith, count), client, deliver-append n c q, maps)

  -- `flush_outbox` on the queue of friend n sends its entries from the front until the client refuses
  -- one: it reports how many were accepted, the accepted ones followed by the kept ones are the queue,
  -- the kept ones are the new queue of n, which has no entry when none is kept, and no other friend's
  -- queue changes. A friend without a queue has the empty one here.
  pub flush_outbox-deliver :
      (n : ℕ) (c : Client) (outbox : ToxOutbox)
      → Flushed n c (queue_or_default (lookup n outbox)) outbox (flush_outbox tox n c outbox)
  flush_outbox-deliver n c outbox = flush_outbox_at n c outbox (lookup n outbox) refl
