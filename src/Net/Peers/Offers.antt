-- ===== src/Net/Peers/Offers.antt =====
-- What a frame that is offered to several connections leaves in their queues, told by the answers of the
-- channels alone.
use meta_text.Prelude.{ℕ, ◌+◌, ◌≡◌, refl, List, [], ◌∷◌, if◌then◌else◌, arith}
use meta_text.Net.Peers.{
  Channels, TrySend, accepted, full, closed, queue_frame, queue_each, is_accepted, shed,
}

-- a queue that accepted the frame counts
abbrev pub took : TrySend → ℕ
took accepted = 1
took full = 0
took closed = 0

module _ (mpsc : Channels) where
  open mpsc use {Store, try_send}

  -- The frame is offered to each connection once, in order: how many queues accepted it, and the queues.
  abbrev pub offers : List ℕ → List ℕ → Store → ℕ × Store
  offers [] frame c = (0, c)
  offers (sender ∷ senders) frame c =
      let (answer, c') = try_send sender frame c in
      let (count, c'') = offers senders frame c' in (took answer + count, c'')

  TrySend-counted :
      (answer : TrySend) (n : ℕ) → (if is_accepted mpsc answer then n + 1 else n) ≡ took answer + n
  unfolding is_accepted
  TrySend-counted accepted n = omega arith
  TrySend-counted full n = omega arith
  TrySend-counted closed n = omega arith

  pub queue_each-offers :
      (senders : List ℕ) (frame : List ℕ) (c : Store) (count : ℕ)
      → ((queue_each mpsc senders frame c count).0 ≡ (offers senders frame c).0)
        × ((queue_each mpsc senders frame c count).1 ≡ (offers senders frame c).1)
  unfolding queue_each queue_frame
  queue_each-offers [] frame c count = (refl, refl)
  queue_each-offers (sender ∷ senders) frame c count =
      let (answer, c') = try_send sender frame c in
      let (same, store) = queue_each-offers senders frame c' (shed mpsc answer count) in
      let counted = TrySend-counted answer (offers senders frame c').0 in
      (ground (arith, same, counted), store)
