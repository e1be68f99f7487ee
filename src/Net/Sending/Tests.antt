-- ===== src/Net/Sending/Tests.antt =====
-- Sending by name in crates/meta-text-backend/src/network.rs on concrete instances.
use meta_text.Prelude.{ℕ, ◌≡◌, refl, List, [], ◌∷◌, ◌++◌, some, length, arith}
use meta_text.Prelude.Text.{codes, trim, is_whitespace, to_ascii_lowercase, text_eq, ascii_lower}
use meta_text.Prelude.Assoc.{lookup, insert, number_key, text_key}
use meta_text.Net.Frame.{MessageKind, binary}
use meta_text.Net.Peers.{NetworkManager, queued, answers_to, peer_senders, queue_frame}
use meta_text.Net.Peers.Queues.{queues, offer}
use meta_text.Net.Peers.Examples.{alice, one_queue, waiting_alice, new_peer}
use meta_text.Net.Sending.{
  enqueue, send_ciphertext_to_peer, flush_outbox, prune_outbox, fresh_entries,
}
use meta_text.Net.Sending.Flush.{Flushed, flush_outbox-hand_over, hand_over, queue_of, offer_each}
use meta_text.Net.Sending.Bounds.{IsBounded, Addressed, operations-IsBounded}
use meta_text.Net.Sending.Delivery.{
  entry_of, send_ciphertext_to_peer-Addressed, queued_is_delivered,
}

abbrev payload : List ℕ
payload = 1 ∷ 2 ∷ []

-- carol is away: her message waits
abbrev away : NetworkManager
away =
    (send_ciphertext_to_peer queues 7 (codes " Carol") payload MessageKind.text binary one_queue
      waiting_alice).2

carol_is_away :
    (send_ciphertext_to_peer queues 7
      (codes " Carol")
      payload
      MessageKind.text
      binary
      one_queue
      waiting_alice).0
    ≡ queued 41 1
unfolding send_ciphertext_to_peer enqueue lookup peer_senders answers_to to_ascii_lowercase trim
    is_whitespace text_eq
carol_is_away = refl

send_ciphertext_to_peer-Addressed_example :
    Addressed queues 7 (codes "BOB") payload MessageKind.text binary one_queue alice (
      send_ciphertext_to_peer queues 7
        (codes "BOB")
        payload
        MessageKind.text
        binary
        one_queue
        alice)
send_ciphertext_to_peer-Addressed_example =
    send_ciphertext_to_peer-Addressed 7 payload MessageKind.text binary queues (codes "BOB")
      one_queue alice

operations-IsBounded_example :
    IsBounded
      (send_ciphertext_to_peer queues 7
        (codes "carol")
        payload
        MessageKind.text
        binary
        one_queue
        alice).2.outbox
    × IsBounded (prune_outbox 7 alice).outbox
    × IsBounded (flush_outbox queues 7 (codes "carol") 9 one_queue alice).2.outbox
operations-IsBounded_example =
    operations-IsBounded queues 7 (codes "carol") payload MessageKind.text binary 9 one_queue alice
      tt

-- the connection 9 is still registered after the send
registered : lookup 9 away.peers ≡ some (new_peer 0)
unfolding send_ciphertext_to_peer enqueue lookup trim is_whitespace peer_senders answers_to
registered = refl

flush_outbox-hand_over_example :
    Flushed queues 20
      (codes "Carol")
      (new_peer 0)
      one_queue
      away
      (flush_outbox queues 20 (codes "Carol") 9 one_queue away)
flush_outbox-hand_over_example =
    flush_outbox-hand_over queues 20 (codes "Carol") 9 (new_peer 0) one_queue away registered

same_name : to_ascii_lowercase (codes "CAROL") ≡ to_ascii_lowercase (trim (codes " Carol"))
unfolding to_ascii_lowercase ascii_lower trim is_whitespace
same_name = refl

nothing_refused :
    (hand_over queues 0
      (fresh_entries 20 (queue_of (to_ascii_lowercase (codes "CAROL")) away.outbox))
      one_queue
      away.frames_dropped).rest
    ≡ []
unfolding send_ciphertext_to_peer enqueue lookup insert to_ascii_lowercase trim is_whitespace
    text_eq fresh_entries queue_frame offer peer_senders answers_to
nothing_refused = refl

queued_is_delivered_example :
    let key = to_ascii_lowercase (codes "CAROL") in
    let earlier =
      fresh_entries 20
        (queue_of (to_ascii_lowercase (trim (codes " Carol"))) waiting_alice.outbox) in
    let due = earlier ++ entry_of 7 payload MessageKind.text binary waiting_alice ∷ [] in
    let flushed = flush_outbox queues 20 (codes "CAROL") 9 one_queue away in
    (flushed.1 ≡ offer_each queues 0 due one_queue)
    × (flushed.0 ≡ length due)
    × (queue_of key flushed.2.outbox ≡ [])
queued_is_delivered_example =
    queued_is_delivered queues 7 (codes " Carol") payload MessageKind.text binary one_queue
      waiting_alice 1 carol_is_away 20 (codes "CAROL") 9 (new_peer 0) one_queue away refl registered
      same_name (omega arith) nothing_refused
