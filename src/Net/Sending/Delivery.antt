-- ===== src/Net/Sending/Delivery.antt =====
-- What addressing a peer by name does in crates/meta-text-backend/src/network.rs, and that a message
-- which was queued reaches the peer when it comes back.
use meta_text.Prelude.{
  ℕ, ◌+◌, ◌-◌, ◌<◌, ◌≡◌, refl, sym, ap, ◌∙◌, inl, inr, List, [], ◌∷◌, ◌++◌, some, length, leb,
  if◌then◌else◌, arith, Bool-cases, length-append, append_nil,
}
use meta_text.Prelude.Text.{Text, is_empty, trim, to_ascii_lowercase}
use meta_text.Prelude.Assoc.{lookup, text_key, number_key, lookup-insert}
use meta_text.Trust.{fetch_add}
use meta_text.Net.Frame.{MessageKind, ContentType, encode_message_frame}
use meta_text.Net.Peers.{
  Channels, NetworkManager, OutboxEntry, Peer, SendOutcome, dropped, queued, sent, outbox_capacity,
  outbox_ttl, peer_senders, answers_to, dispatch_to,
}
use meta_text.Net.Sending.{fresh_entries, enqueue, send_ciphertext_to_peer, flush_outbox}
use meta_text.Net.Sending.Flush.{
  queue_of, hand_over, hand_over-append, offer_each, hand_over-offer_each, flush_outbox-hand_over,
}
use meta_text.Net.Sending.Bounds.{Addressed, appended}
use meta_text.Net.Peers.Offers.{queue_each-offers}

module _ (now : ℕ) (ciphertext : List ℕ) (kind : MessageKind) (content_type : ContentType) where
  -- the entry that a message becomes
  abbrev pub entry_of : NetworkManager → OutboxEntry
  entry_of m = record {
    message_id = m.next_message_id;
    ciphertext = ciphertext;
    kind = kind;
    content_type = content_type;
    queued_at = now;
  }

  enqueue-verdict :
      (wanted : Text) (message_id : ℕ) (m : NetworkManager)
      → let queue = queue_of wanted m.outbox in
        let entry : OutboxEntry = record {
          message_id = message_id;
          ciphertext = ciphertext;
          kind = kind;
          content_type = content_type;
          queued_at = now;
        } in
        let result = enqueue now wanted message_id ciphertext kind content_type m in
        (result.0 ≡ (
          if leb outbox_capacity (length queue)
          then dropped
          else queued message_id (length queue + 1)))
        × ((j : Text) → queue_of j result.1.outbox ≡ appended wanted entry m.outbox j)
        × (result.1.next_message_id ≡ m.next_message_id)
  unfolding enqueue
  enqueue-verdict wanted message_id m =
      let queue = queue_of wanted m.outbox in
      let entry : OutboxEntry = record {
        message_id = message_id;
        ciphertext = ciphertext;
        kind = kind;
        content_type = content_type;
        queued_at = now;
      } in
      elim (Bool-cases (leb outbox_capacity (length queue))) [
        | inl full ↦ rw full (
          refl,
          λ j. ground (arith, lookup-insert wanted j queue m.outbox, text_key.beq_iff wanted j),
          refl,
        )
        | inr free ↦ rw free (
          ap (queued message_id) (omega (arith, length-append queue (entry ∷ []))),
          λ j. ground (arith, lookup-insert wanted j (queue ++ entry ∷ []) m.outbox),
          refl,
        )
      ]

  module _ (mpsc : Channels) where
    open mpsc use {Store}

    -- A send to a blank name is dropped and changes neither the state nor a channel. A send to a name
    -- that connected peers announced, compared without case, offers the frame of the message, with the
    -- next identifier, to the channel of each such peer once, is a receipt with that identifier and the
    -- count of the channels that took it, and leaves the outbox alone. A send to any other name offers
    -- nothing, goes to the end of that name's queue alone and tells its position, or is dropped where 32
    -- messages wait; the identifier is spent in both cases.
    pub send_ciphertext_to_peer-Addressed :
        (nickname : Text) (c : Store) (m : NetworkManager)
        → Addressed mpsc now nickname ciphertext kind content_type c m
            (send_ciphertext_to_peer mpsc now nickname ciphertext kind content_type c m)
    unfolding send_ciphertext_to_peer dispatch_to
    send_ciphertext_to_peer-Addressed nickname c m =
        let wanted = to_ascii_lowercase (trim nickname) in
        let senders = peer_senders (answers_to wanted) m.peers in
        let counted : NetworkManager = record m {
          next_message_id = fetch_add m.next_message_id 1;
        } in
        let frame = encode_message_frame m.next_message_id ciphertext kind content_type in
        let offered = queue_each-offers mpsc senders frame c m.frames_dropped in
        let (outcome, queues, spent) = enqueue-verdict wanted m.next_message_id counted in
        (
          λ blank. rw blank (refl, refl, refl),
          λ named absent. rw (named, absent) (outcome, refl, queues, spent),
          λ named present.
              rw (named, present)
                (
                  ap (λ count. sent (record { message_id = m.next_message_id; peers = count }))
                      offered.0,
                  offered.1,
                  refl,
                  refl,
                ),
        )

fresh_entries-append :
    (now : ℕ) (queue : List OutboxEntry) (entry : OutboxEntry)
    → now - entry.queued_at < outbox_ttl
    → fresh_entries now (queue ++ entry ∷ []) ≡ fresh_entries now queue ++ entry ∷ []
unfolding fresh_entries
fresh_entries-append now [] entry e = ground arith
fresh_entries-append now (first ∷ queue) entry e =
    ground (arith, fresh_entries-append now queue entry e)

module _ (mpsc : Channels) (now : ℕ) (nickname : Text) (ciphertext : List ℕ) (kind : MessageKind)
    (content_type : ContentType) (c : mpsc.Store) (m : NetworkManager) where
  abbrev sending : SendOutcome × mpsc.Store × NetworkManager
  sending = send_ciphertext_to_peer mpsc now nickname ciphertext kind content_type c m

  -- A queued message stands at the end of the queue of its name.
  queued_waits :
      (position : ℕ)
      → sending.0 ≡ queued m.next_message_id position
      → let wanted = to_ascii_lowercase (trim nickname) in
        queue_of wanted sending.2.outbox
        ≡ queue_of wanted m.outbox ++ entry_of now ciphertext kind content_type m ∷ []
  queued_waits position is_queued =
      let wanted = to_ascii_lowercase (trim nickname) in
      let (blank, absent, present) =
        send_ciphertext_to_peer-Addressed now ciphertext kind content_type mpsc nickname c m in
      elim (Bool-cases (is_empty (trim nickname))) [
        | inl e ↦ let (outcome, _, _) = blank e in cc
        | inr named ↦ elim (Bool-cases (is_empty (peer_senders (answers_to wanted) m.peers))) [
          | inl e ↦
              let (outcome, _, queues, _) = absent named e in
              ground (arith, outcome, is_queued, queues wanted, text_key.beq_iff wanted wanted)
          | inr e ↦ let (outcome, _, _, _) = present named e in cc
        ]
      ]

  -- A message that was queued for a name reaches a connection that flushes that name, whatever the case
  -- it is written in, within the time to live, where the outbox is the one the send left and the
  -- connection's queue refuses nothing: the frames of the fresh earlier messages of the name and then the
  -- frame of this one are offered to the channel of that connection, each once and in this order, the
  -- flush counts them, and nothing waits for the name afterwards.
  pub queued_is_delivered :
      (position : ℕ)
      → sending.0 ≡ queued m.next_message_id position
      → (later : ℕ) (greeted : Text) (remote : ℕ) (peer : Peer) (c' : mpsc.Store)
        (m' : NetworkManager)
      → m'.outbox ≡ sending.2.outbox
      → lookup remote m'.peers ≡ some peer
      → to_ascii_lowercase greeted ≡ to_ascii_lowercase (trim nickname)
      → later - now < outbox_ttl
      → let key = to_ascii_lowercase greeted in
        let fresh = fresh_entries later (queue_of key m'.outbox) in
        let plan = hand_over mpsc peer.sender fresh c' m'.frames_dropped in
        plan.rest ≡ []
        → let earlier =
            fresh_entries later (queue_of (to_ascii_lowercase (trim nickname)) m.outbox) in
          let due = earlier ++ entry_of now ciphertext kind content_type m ∷ [] in
          ((flush_outbox mpsc later greeted remote c' m').1 ≡ offer_each mpsc peer.sender due c')
          × ((flush_outbox mpsc later greeted remote c' m').0 ≡ length due)
          × (queue_of key (flush_outbox mpsc later greeted remote c' m').2.outbox ≡ [])
  queued_is_delivered position is_queued later greeted remote peer c' m' same registered name fresh
        whole =
      let key = to_ascii_lowercase greeted in
      let queue = queue_of (to_ascii_lowercase (trim nickname)) m.outbox in
      let entry = entry_of now ciphertext kind content_type m in
      let kept = fresh_entries later queue in
      let waits : queue_of key m'.outbox ≡ queue ++ entry ∷ [] =
        ap (queue_of key) same
        ∙ ap (λ k. queue_of k sending.2.outbox) name
        ∙ queued_waits position is_queued in
      let taken = fresh_entries later (queue_of key m'.outbox) in
      let is_taken : taken ≡ kept ++ entry ∷ [] =
        ap (fresh_entries later) waits ∙ fresh_entries-append later queue entry fresh in
      let plan = hand_over mpsc peer.sender taken c' m'.frames_dropped in
      let all_handed : plan.handed ≡ taken =
        sym (append_nil plan.handed)
        ∙ ap (λ r. plan.handed ++ r) (sym whole)
        ∙ hand_over-append mpsc peer.sender taken c' m'.frames_dropped in
      let offered = hand_over-offer_each mpsc peer.sender taken c' m'.frames_dropped whole in
      let (count, store, queues, _, _, _) =
        flush_outbox-hand_over mpsc later greeted remote peer c' m' registered in
      (
        store ∙ offered ∙ ap (λ due. offer_each mpsc peer.sender due c') is_taken,
        count ∙ ap length (all_handed ∙ is_taken),
        ground (arith, queues key, whole, text_key.beq_iff key key),
      )
