-- ===== src/Tox/Send.antt =====
-- Addressing and sending in crates/meta-text-backend/src/transport.rs: `resolve_friend`, `send_payload`,
-- and what `forward_event` does with the outbox when a friend comes online. `to_uppercase` of the standard
-- library is the parameter `upper`; the answers of the Tox client are arguments.
pub mod Online
mod Tests
use meta_text.Prelude.{
  ℕ, ◌+◌, Bool, true, false, ◌||◌, List, [], ◌∷◌, Option, none, some, Result, ok, err, take, ltb,
  if◌then◌else◌,
}
use meta_text.Prelude.Text.{Text, trim, eq_ignore_ascii_case}
use meta_text.Hex.{Hex}
use meta_text.Net.Frame.{MessageKind}
use meta_text.Tox.State.{FriendEntry, ToxTransport, fetch_add, persist}
use meta_text.Tox.Requests.{store_friends}
use meta_text.Tox.Outbox.{ToxClient, SendOutcome, sent, enqueue, prune_outbox, flush_outbox}

-- twice the 32 bytes of a public key, in hexadecimal characters
abbrev pub key_chars : ℕ
key_chars = 64

pub public_key_prefix : Text → Text
public_key_prefix identifier = take key_chars identifier

pub data SendError : Type 0 where
  unknown_friend : Text → SendError
  tox_failed : SendError

-- `send_message_typed`: the identifier, the error 3 for a friend that is not connected, another error
pub data SendAnswer : Type 0 where
  accepted : ℕ → SendAnswer
  not_connected failed : SendAnswer

abbrev pub answers_to : Text → Text → FriendEntry → Bool
answers_to wanted trimmed friend =
    eq_ignore_ascii_case friend.public_key wanted || eq_ignore_ascii_case friend.name trimmed

pub find_friend : Text → Text → List (ℕ × FriendEntry) → Option ℕ
find_friend wanted trimmed [] = none
find_friend wanted trimmed ((n, friend) ∷ friends) =
    if answers_to wanted trimmed friend then some n else find_friend wanted trimmed friends

module _ (upper : Text → Text) where
  pub resolve_friend : Text → List (ℕ × FriendEntry) → Option ℕ
  unfolding find_friend public_key_prefix
  resolve_friend peer friends =
      find_friend (public_key_prefix (upper (trim peer))) (trim peer) friends

module _ (hex : Hex) (now : ℕ) (published : Bool) where
  pub send_to :
      SendAnswer
      → ℕ
      → List ℕ
      → MessageKind
      → ToxTransport
      → Result SendError SendOutcome × ToxTransport
  send_to (accepted message_id) n payload kind t = (ok (sent message_id 1), t)
  send_to not_connected n payload kind t =
      let (outcome, t') = enqueue hex now published n payload kind t in (ok outcome, t')
  send_to failed n payload kind t = (err tox_failed, t)

module _ (upper : Text → Text) (hex : Hex) (now : ℕ) (published : Bool) where
  pub send_payload :
      (ℕ → SendAnswer)
      → Text
      → List ℕ
      → MessageKind
      → ToxTransport
      → Result SendError SendOutcome × ToxTransport
  unfolding resolve_friend send_to
  send_payload answer peer payload kind t = elim (resolve_friend upper peer t.friends) [
    | none ↦ (err (unknown_friend peer), t)
    | some n ↦ send_to hex now published (answer n) n payload kind t
  ]

module _ (tox : ToxClient) (hex : Hex) where
  open tox use {Client}

  -- `seed_friends`, with the answer of `client.snapshot()`
  pub seed_friends :
      Option (List (ℕ × FriendEntry)) → List (ℕ × FriendEntry) → List (ℕ × FriendEntry)
  seed_friends none friends = friends
  seed_friends (some listed) friends = store_friends [] listed

  -- the branch of `ToxEvent::FriendConnection` for a friend that is reachable now
  pub friend_online :
      Option (List (ℕ × FriendEntry))
      → ℕ
      → Bool
      → ℕ
      → Client
      → ToxTransport
      → ℕ × Client × ToxTransport
  unfolding seed_friends
  friend_online snapshot now published n c t =
      let (pruned, expired) = prune_outbox now t.outbox in
      let (count, c', outbox) = flush_outbox tox n c pruned in
      let t' : ToxTransport = record t {
        friends = seed_friends snapshot t.friends;
        outbox = outbox;
        expired = fetch_add t.expired expired;
      } in
      (count, c', if ltb 0 expired || ltb 0 count then persist hex published t' else t')
