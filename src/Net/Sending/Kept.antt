-- ===== src/Net/Sending/Kept.antt =====
-- Which parts of the transport's state sending leaves alone, in
-- crates/meta-text-backend/src/network.rs.
use meta_text.Prelude.{
  ℕ, ◌+◌, ◌-◌, ◌≡◌, refl, ◌∙◌, inl, inr, List, [], ◌∷◌, length, ltb, Bool-cases, Option-cases,
}
use meta_text.Prelude.Text.{Text, to_ascii_lowercase}
use meta_text.Prelude.Assoc.{lookup, number_key, text_key}
use meta_text.Net.Peers.{Channels, NetworkManager, OutboxEntry, Outbox, queue_to}
use meta_text.Net.Sending.{
  or_default, fresh_entries, take_queue, put_back, entry_frame, send_entries, flush_outbox,
}

module _ {ℓ} {A : Type ℓ} (mpsc : Channels) (part : NetworkManager → A) where
  open mpsc use {Store}

  -- the part does not read the counter of shed frames
  abbrev pub IgnoresShed : Type ℓ
  IgnoresShed =
      (m : NetworkManager) (count : ℕ) → part (record m { frames_dropped = count }) ≡ part m

  pub queue_to-keeps :
      IgnoresShed
      → (remote : ℕ) (frame : List ℕ) (c : Store) (m : NetworkManager)
      → part (queue_to mpsc remote frame c m).2 ≡ part m
  unfolding queue_to
  queue_to-keeps ignores remote frame c m = elim (Option-cases (lookup remote m.peers)) [
    | inl e ↦ rw (queue_to, e) refl
    | inr (peer, e) ↦ rw (queue_to, e) (ignores m _)
  ]

  pub send_entries-keeps :
      IgnoresShed
      → (remote : ℕ) (entries : List OutboxEntry) (flushed : ℕ) (c : Store) (m : NetworkManager)
      → part (send_entries mpsc remote entries flushed c m).3 ≡ part m
  unfolding send_entries
  send_entries-keeps ignores remote [] flushed c m = refl
  send_entries-keeps ignores remote (entry ∷ entries) flushed c m =
      let (delivered, c', m') = queue_to mpsc remote (entry_frame entry) c m in
      let here = queue_to-keeps ignores remote (entry_frame entry) c m in
      elim (Bool-cases delivered) [
        | inl e ↦ rw e (send_entries-keeps ignores remote entries (flushed + 1) c' m' ∙ here)
        | inr e ↦ rw e here
      ]

  -- the part does not read the outbox and its counter of expired messages either
  abbrev pub IgnoresOutbox : Type ℓ
  IgnoresOutbox =
      (m : NetworkManager) (outbox : Outbox) (expired : ℕ)
      → part (record m { outbox = outbox; outbox_expired = expired }) ≡ part m

  put_back-keeps :
      IgnoresOutbox
      → (key : Text) (entries : List OutboxEntry) (m : NetworkManager)
      → part (put_back key entries m) ≡ part m
  unfolding put_back
  put_back-keeps ignores key [] m = refl
  put_back-keeps ignores key (entry ∷ entries) m = ignores m _ m.outbox_expired

  take_queue-keeps :
      IgnoresOutbox
      → (now : ℕ) (key : Text) (m : NetworkManager) → part (take_queue now key m).1 ≡ part m
  unfolding take_queue
  take_queue-keeps ignores now key m =
      let queue = or_default (lookup key m.outbox) in
      elim (Bool-cases (ltb 0 (length queue - length (fresh_entries now queue)))) [
        | inl e ↦ rw (take_queue, e) (ignores m _ _)
        | inr e ↦ rw (take_queue, e) (ignores m _ m.outbox_expired)
      ]

  pub flush_outbox-keeps :
      IgnoresShed
      → IgnoresOutbox
      → (now : ℕ) (nickname : Text) (remote : ℕ) (c : Store) (m : NetworkManager)
      → part (flush_outbox mpsc now nickname remote c m).2 ≡ part m
  unfolding flush_outbox
  flush_outbox-keeps shed outbox now nickname remote c m =
      let key = to_ascii_lowercase nickname in
      let (fresh, taken) = take_queue now key m in
      let later = send_entries mpsc remote fresh 0 c taken in
      put_back-keeps outbox key later.1 later.3
      ∙ send_entries-keeps shed remote fresh 0 c taken
      ∙ take_queue-keeps outbox now key m

module _ (mpsc : Channels) where
  open mpsc use {Store}

  pub queue_to-peers :
      (remote : ℕ) (frame : List ℕ) (c : Store) (m : NetworkManager)
      → (queue_to mpsc remote frame c m).2.peers ≡ m.peers
  queue_to-peers = queue_to-keeps mpsc (λ m. m.peers) (λ m count. refl)

  pub flush_outbox-peers :
      (now : ℕ) (nickname : Text) (remote : ℕ) (c : Store) (m : NetworkManager)
      → (flush_outbox mpsc now nickname remote c m).2.peers ≡ m.peers
  flush_outbox-peers =
      flush_outbox-keeps mpsc (λ m. m.peers) (λ m count. refl) (λ m outbox expired. refl)

  pub flush_outbox-pins :
      (now : ℕ) (nickname : Text) (remote : ℕ) (c : Store) (m : NetworkManager)
      → (flush_outbox mpsc now nickname remote c m).2.pins ≡ m.pins
  flush_outbox-pins =
      flush_outbox-keeps mpsc (λ m. m.pins) (λ m count. refl) (λ m outbox expired. refl)
