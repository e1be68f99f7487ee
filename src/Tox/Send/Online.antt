-- ===== src/Tox/Send/Online.antt =====
-- A friend that comes online is sent all that waits for it, and which friend an address names.
use meta_text.Prelude.{
  ℕ, ◌≡◌, refl, ap, ◌∙◌, Bool, true, false, ◌||◌, List, [], ◌∷◌, Option, none, some, length, take,
  ◌==◌, ltb, if◌then◌else◌, Bool-cases, inl, inr, arith,
}
use meta_text.Prelude.Text.{Text, trim}
use meta_text.Prelude.Assoc.{lookup, number_key}
use meta_text.Prelude.Assoc.Distinct.{Distinct, Entries}
use meta_text.Hex.{Hex}
use meta_text.Tox.State.{Queue, FriendEntry, ToxTransport, fetch_add}
use meta_text.Tox.Outbox.{
  ToxClient, ToxMessageKind, tox_message_kind, prune_outbox, prune_queue, flush_outbox,
}
use meta_text.Tox.Outbox.Flush.{deliver, flush_outbox-deliver, kept}
use meta_text.Tox.Outbox.Bounds.{persist-outbox}
use meta_text.Tox.Outbox.Queues.{queue_of, queue_of-prune_outbox}
use meta_text.Tox.Send.{
  friend_online, seed_friends, resolve_friend, find_friend, answers_to, public_key_prefix,
  key_chars,
}

-- The client takes every message.
abbrev pub TakesAll : ToxClient → Type 0
TakesAll tox =
    (n : ℕ) (body : List ℕ) (kind : ToxMessageKind) (c : tox.Client)
    → (tox.send n body kind c).0 ≡ true

deliver-TakesAll :
    (tox : ToxClient) (n : ℕ) (c : tox.Client) (q : Queue)
    → TakesAll tox
    → ((deliver tox n c q).rest ≡ []) × ((deliver tox n c q).delivered ≡ q)
deliver-TakesAll tox n c [] takes = (refl, refl)
deliver-TakesAll tox n c (m ∷ q) takes =
    let first = takes n m.body (tox_message_kind m.kind) c in
    let c' = (tox.send n m.body (tox_message_kind m.kind) c).1 in
    let (rest, delivered) = deliver-TakesAll tox n c' q takes in
    rw (first) (rest, ap (λ t. m ∷ t) delivered)

module _ (tox : ToxClient) where
  -- Every payload of the list is sent to friend n, once each and in order.
  abbrev pub send_each : ℕ → Queue → tox.Client → tox.Client
  send_each n [] c = c
  send_each n (m ∷ q) c = send_each n q (tox.send n m.body (tox_message_kind m.kind) c).1

  deliver-send_each :
      (n : ℕ) (c : tox.Client) (q : Queue)
      → TakesAll tox
      → (deliver tox n c q).client ≡ send_each n q c
  deliver-send_each n c [] takes = refl
  deliver-send_each n c (m ∷ q) takes =
      let first = takes n m.body (tox_message_kind m.kind) c in
      let c' = (tox.send n m.body (tox_message_kind m.kind) c).1 in
      rw first (deliver-send_each n c' q takes)

module _ (tox : ToxClient) (hex : Hex) (snapshot : Option (List (ℕ × FriendEntry))) (now : ℕ)
    (published : Bool) (n : ℕ) (c : tox.Client) (t : ToxTransport) where
  -- The outbox of the handler is that of the flush, whether the file is published or not.
  friend_online-outbox :
      (friend_online tox hex snapshot now published n c t).2.outbox
      ≡ (flush_outbox tox n c (prune_outbox now t.outbox).0).2
  unfolding friend_online
  friend_online-outbox =
      let (pruned, expired) = prune_outbox now t.outbox in
      let (count, c', outbox) = flush_outbox tox n c pruned in
      let t' : ToxTransport = record t {
        friends = seed_friends tox hex snapshot t.friends;
        outbox = outbox;
        expired = fetch_add t.expired expired;
      } in
      elim (Bool-cases (ltb 0 expired || ltb 0 count)) [
        | inl changed ↦ rw (friend_online, changed) (persist-outbox hex published t')
        | inr same ↦ rw (friend_online, same) refl
      ]

  -- When friend n comes online and the client takes every message, all the payloads of n that are
  -- younger than 300 seconds are sent to it, each once and in the order of its queue, and counted;
  -- nothing is left in its queue, and the other queues are pruned only; the table is supposed to have
  -- one queue per friend.
  pub friend_online-deliver :
      TakesAll tox
      → Distinct t.outbox
      → let fresh = prune_queue now (queue_of n t.outbox) in
        ((friend_online tox hex snapshot now published n c t).0 ≡ length fresh)
        × ((friend_online tox hex snapshot now published n c t).1 ≡ send_each tox n fresh c)
        × ((j : ℕ)
            → queue_of j (friend_online tox hex snapshot now published n c t).2.outbox
              ≡ (if n == j then [] else prune_queue now (queue_of j t.outbox)))
  unfolding friend_online
  friend_online-deliver takes d =
      let pruned = (prune_outbox now t.outbox).0 in
      let q = queue_of n pruned in
      let (count, client, whole, maps) = flush_outbox-deliver tox n c pruned in
      let (rest, delivered) = deliver-TakesAll tox n c q takes in
      let same = queue_of-prune_outbox now n t.outbox d in
      let kept_none : kept tox (deliver tox n c q).rest ≡ none = ap (kept tox) rest in
      (
        count ∙ ap length (delivered ∙ same),
        client ∙ deliver-send_each tox n c q takes ∙ ap (λ q. send_each tox n q c) same,
        λ j.
            ap (queue_of j) friend_online-outbox
            ∙ ground (arith, maps j, kept_none, queue_of-prune_outbox now j t.outbox d),
      )

-- what may be found for an address
abbrev pub Resolved : Text → Text → List (ℕ × FriendEntry) → Option ℕ → Type 0
Resolved wanted trimmed friends none =
    Entries (λ n friend. answers_to wanted trimmed friend ≡ false) friends
Resolved wanted trimmed friends (some n) =
    (friend : FriendEntry) × (lookup n friends ≡ some friend)
    × (answers_to wanted trimmed friend ≡ true)

find_friend-Resolved :
    (wanted trimmed : Text) (friends : List (ℕ × FriendEntry))
    → Distinct friends
    → (found : Option ℕ) → find_friend wanted trimmed friends ≡ found
    → Resolved wanted trimmed friends found
unfolding find_friend lookup
find_friend-Resolved wanted trimmed [] d none e = tt
find_friend-Resolved wanted trimmed [] d (some n) e = ground (arith, e)
find_friend-Resolved wanted trimmed ((j, friend) ∷ friends) (fresh, d) none e =
    (ground (arith, e), find_friend-Resolved wanted trimmed friends d none (ground (arith, e)))
find_friend-Resolved wanted trimmed ((j, friend) ∷ friends) (fresh, d) (some n) e =
    elim (Bool-cases (answers_to wanted trimmed friend)) [
      | inl here ↦ (friend, ground (arith, e, here), here)
      | inr other ↦
          let later : find_friend wanted trimmed friends ≡ some n = ground (arith, e, other) in
          let (found, listed, answers) =
            find_friend-Resolved wanted trimmed friends d (some n) later in
          (found, ground (arith, listed, fresh), answers)
    ]

-- `resolve_friend` gives the number of a friend whose key is the first 64 characters of the address, or
-- whose name is the address, up to ASCII case, and gives none where no friend answers to it; the table is
-- supposed to have one entry per number.
pub resolve_friend-Resolved :
    (upper : Text → Text) (peer : Text) (friends : List (ℕ × FriendEntry))
    → Distinct friends
    → Resolved
        (take key_chars (upper (trim peer)))
        (trim peer)
        friends
        (resolve_friend upper peer friends)
unfolding resolve_friend public_key_prefix
resolve_friend-Resolved upper peer friends d =
    find_friend-Resolved (take key_chars (upper (trim peer))) (trim peer) friends d
      (resolve_friend upper peer friends) refl
