-- ===== src/Net/Sending/Flush.antt =====
-- `flush_outbox` of crates/meta-text-backend/src/network.rs against a specification: hand the fresh
-- entries to the queue of the connection from the front, until it refuses one.
use mathlib.Core.Path.{subst}
use meta_text.Prelude.{
  ℕ, ◌+◌, ◌-◌, ◌≡◌, refl, sym, ap, ◌∙◌, inl, inr, List, [], ◌∷◌, ◌++◌, some, length, ltb,
  if◌then◌else◌, arith, Bool-cases,
}
use meta_text.Prelude.Text.{Text, to_ascii_lowercase, text_eq}
use meta_text.Prelude.Assoc.{lookup, remove, lookup-insert, lookup-remove, text_key, number_key}
use meta_text.Trust.{fetch_add}
use meta_text.Net.Peers.{Channels, NetworkManager, OutboxEntry, Outbox, Peer, queue_frame, queue_to}
use meta_text.Net.Sending.{
  or_default, fresh_entries, take_queue, put_back, entry_frame, send_entries, flush_outbox,
}

abbrev pub queue_of : Text → Outbox → List OutboxEntry
queue_of key outbox = or_default (lookup key outbox)

module _ (mpsc : Channels) where
  open mpsc use {Store, try_send}

  pub record Handover : Type 0 where
    pub handed : List OutboxEntry
    pub rest : List OutboxEntry
    pub store : Store
    pub shed : ℕ

  abbrev pub hand_over : ℕ → List OutboxEntry → Store → ℕ → Handover
  hand_over sender [] c count = record { handed = []; rest = []; store = c; shed = count }
  hand_over sender (entry ∷ entries) c count =
      let (delivered, c', count') = queue_frame mpsc sender (entry_frame entry) c count in
      let later = hand_over sender entries c' count' in
      if delivered
      then record later { handed = entry ∷ later.handed }
      else record { handed = []; rest = entry ∷ entries; store = c'; shed = count' }

  -- Nothing is lost, duplicated or reordered.
  pub hand_over-append :
      (sender : ℕ) (entries : List OutboxEntry) (c : Store) (count : ℕ)
      → let plan = hand_over sender entries c count in plan.handed ++ plan.rest ≡ entries
  hand_over-append sender [] c count = refl
  hand_over-append sender (entry ∷ entries) c count =
      let (delivered, c', count') = queue_frame mpsc sender (entry_frame entry) c count in
      let later = hand_over-append sender entries c' count' in ground (arith, later)

  -- The frames of the entries are offered to the channel of `sender`, each once and in order.
  abbrev pub offer_each : ℕ → List OutboxEntry → Store → Store
  offer_each sender [] c = c
  offer_each sender (entry ∷ entries) c =
      offer_each sender entries (try_send sender (entry_frame entry) c).1

  -- Where nothing is refused, the store holds what was offered.
  pub hand_over-offer_each :
      (sender : ℕ) (entries : List OutboxEntry) (c : Store) (count : ℕ)
      → (hand_over sender entries c count).rest ≡ []
      → (hand_over sender entries c count).store ≡ offer_each sender entries c
  unfolding queue_frame
  hand_over-offer_each sender [] c count e = refl
  hand_over-offer_each sender (entry ∷ entries) c count e =
      let (delivered, c', count') = queue_frame mpsc sender (entry_frame entry) c count in
      elim (Bool-cases delivered) [
        | inl taken ↦
            let rest : (hand_over sender entries c' count').rest ≡ [] = ground (arith, e, taken) in
            rw taken (hand_over-offer_each sender entries c' count' rest)
        | inr refused ↦ ground (arith, e, refused)
      ]

  -- The loop follows the specification where the connection is registered.
  send_entries-hand_over :
      (remote : ℕ) (peer : Peer) (entries : List OutboxEntry) (flushed : ℕ) (c : Store)
      (m : NetworkManager)
      → lookup remote m.peers ≡ some peer
      → let plan = hand_over peer.sender entries c m.frames_dropped in
        send_entries mpsc remote entries flushed c m ≡ (
          flushed + length plan.handed,
          plan.rest,
          plan.store,
          record m { frames_dropped = plan.shed },
        )
  unfolding send_entries queue_to
  send_entries-hand_over remote peer [] flushed c m e = ground arith
  send_entries-hand_over remote peer (entry ∷ entries) flushed c m e =
      let (delivered, c', count') =
        queue_frame mpsc peer.sender (entry_frame entry) c m.frames_dropped in
      let m' : NetworkManager = record m { frames_dropped = count' } in
      let later = send_entries-hand_over remote peer entries (flushed + 1) c' m' e in
      ground (arith, e, later)

pub queue_of-put_back :
    (key : Text) (entries : List OutboxEntry) (m : NetworkManager) (j : Text)
    → queue_of key m.outbox ≡ []
    → queue_of j (put_back key entries m).outbox
      ≡ (if text_eq key j then entries else queue_of j m.outbox)
unfolding put_back
queue_of-put_back key [] m j e = ground (arith, e, text_key.beq_iff key j)
queue_of-put_back key (entry ∷ entries) m j e =
    ground
      (arith, e, lookup-insert key j (or_default (lookup key m.outbox) ++ entry ∷ entries) m.outbox)

pub queue_of-remove :
    (key j : Text) (outbox : Outbox)
    → queue_of j (remove key outbox) ≡ (if text_eq key j then [] else queue_of j outbox)
queue_of-remove key j outbox = ground (arith, lookup-remove key j outbox)

pub put_back-rest :
    (key : Text) (entries : List OutboxEntry) (m : NetworkManager)
    → ((put_back key entries m).peers ≡ m.peers)
      × ((put_back key entries m).frames_dropped ≡ m.frames_dropped)
      × ((put_back key entries m).outbox_expired ≡ m.outbox_expired)
unfolding put_back
put_back-rest key [] m = (refl, refl, refl)
put_back-rest key (entry ∷ entries) m = (refl, refl, refl)

pub take_queue-rest :
    (now : ℕ) (key : Text) (m : NetworkManager)
    → let fresh = fresh_entries now (queue_of key m.outbox) in
      let expired = length (queue_of key m.outbox) - length fresh in
      let taken = (take_queue now key m).1 in
      ((take_queue now key m).0 ≡ fresh)
      × (taken.outbox ≡ remove key m.outbox)
      × (taken.peers ≡ m.peers)
      × (taken.frames_dropped ≡ m.frames_dropped)
      × (taken.outbox_expired
          ≡ (if ltb 0 expired then fetch_add m.outbox_expired expired else m.outbox_expired))
unfolding take_queue
take_queue-rest now key m = ground arith

module _ (mpsc : Channels) where
  open mpsc use {Store}

  -- what a flush of the outbox of `nickname` into the connection `peer` leaves
  abbrev pub Flushed :
      ℕ → Text → Peer → Store → NetworkManager → ℕ × Store × NetworkManager → Type 0
  Flushed now nickname peer c m (flushed, c', m') =
      let key = to_ascii_lowercase nickname in
      let fresh = fresh_entries now (queue_of key m.outbox) in
      let expired = length (queue_of key m.outbox) - length fresh in
      let plan = hand_over mpsc peer.sender fresh c m.frames_dropped in
      (flushed ≡ length plan.handed)
      × (c' ≡ plan.store)
      × ((j : Text)
          → queue_of j m'.outbox ≡ (if text_eq key j then plan.rest else queue_of j m.outbox))
      × (m'.frames_dropped ≡ plan.shed)
      × (m'.outbox_expired
          ≡ (if ltb 0 expired then fetch_add m.outbox_expired expired else m.outbox_expired))
      × (m'.peers ≡ m.peers)

  finish : Text → ℕ × List OutboxEntry × Store × NetworkManager → ℕ × Store × NetworkManager
  finish key (flushed, remaining, c, m) = (flushed, c, put_back key remaining m)

  plan-Flushed :
      (now : ℕ) (nickname : Text) (peer : Peer) (c : Store) (m : NetworkManager)
      → let key = to_ascii_lowercase nickname in
        let (fresh, taken) = take_queue now key m in
        let plan = hand_over mpsc peer.sender fresh c taken.frames_dropped in
        Flushed now nickname peer c m (
          finish key (
            0 + length plan.handed,
            plan.rest,
            plan.store,
            record taken { frames_dropped = plan.shed },
          ))
  unfolding finish
  plan-Flushed now nickname peer c m =
      let key = to_ascii_lowercase nickname in
      let (fresh, outbox, peers, count, expired) = take_queue-rest now key m in
      let taken = (take_queue now key m).1 in
      let plan = hand_over mpsc peer.sender (take_queue now key m).0 c taken.frames_dropped in
      let sent : NetworkManager = record taken { frames_dropped = plan.shed } in
      let (same_peers, same_count, same_expired) = put_back-rest key plan.rest sent in
      let empty : queue_of key taken.outbox ≡ [] =
        ap (queue_of key) outbox
        ∙ ground (arith, queue_of-remove key key m.outbox, text_key.beq_iff key key) in
      let same_plan : plan
          ≡ hand_over mpsc peer.sender (fresh_entries now (queue_of key m.outbox)) c
              m.frames_dropped =
        rw (fresh, count) refl in
      (
        omega (arith, ap (λ p. length p.handed) same_plan),
        ap (λ p. p.store) same_plan,
        λ j.
            queue_of-put_back key plan.rest sent j empty
            ∙ ground (
              arith,
              ap (λ p. p.rest) same_plan,
              ap (queue_of j) outbox,
              queue_of-remove key j m.outbox,
            ),
        same_count ∙ ap (λ p. p.shed) same_plan,
        same_expired ∙ expired,
        same_peers ∙ peers,
      )

  -- A flush to a registered connection hands the fresh entries of the name, oldest first, to its queue
  -- until the queue refuses one, and counts them; that one and the later ones stay, in order; the
  -- queues of the other names and the registry do not change; what expired and what was shed is counted.
  pub flush_outbox-hand_over :
      (now : ℕ) (nickname : Text) (remote : ℕ) (peer : Peer) (c : Store) (m : NetworkManager)
      → lookup remote m.peers ≡ some peer
      → Flushed now nickname peer c m (flush_outbox mpsc now nickname remote c m)
  unfolding flush_outbox finish
  flush_outbox-hand_over now nickname remote peer c m e =
      let key = to_ascii_lowercase nickname in
      let (fresh, taken) = take_queue now key m in
      let (_, _, peers, _, _) = take_queue-rest now key m in
      let registered : lookup remote taken.peers ≡ some peer = ap (lookup remote) peers ∙ e in
      let whole = send_entries-hand_over mpsc remote peer fresh 0 c taken registered in
      subst (λ s. Flushed now nickname peer c m (finish key s)) (sym whole)
        (plan-Flushed now nickname peer c m)
