-- ===== src/Net/Dispatch/Greeting.antt =====
-- The order of the greeting of a peer does not matter to what is pinned, in
-- crates/meta-text-backend/src/network.rs.
use meta_text.Prelude.{
  ℕ, ◌≡◌, refl, ap, ◌∙◌, Option-cases, false, inl, inr, List, [], Option, none, some, arith,
}
use meta_text.Prelude.Text.{Text, is_empty, trim}
use meta_text.Prelude.Assoc.{lookup, number_key}
use meta_text.Hex.{Hex}
use meta_text.Trust.{PinStore, observe}
use meta_text.Net.Peers.{Channels, NetworkManager, Peer, Peers}
use meta_text.Net.Sending.Kept.{flush_outbox-peers, flush_outbox-pins}
use meta_text.Net.Dispatch.{
  Ambient, update_peer, with_nickname, with_identity, accept_hello, accept_identity, pin_announced,
  pin_identity, nickname_of, peer_identity,
}
use meta_text.Net.Dispatch.Registry.{lookup-update_peer}
use meta_text.Net.Dispatch.Steps.{pin_announced-peers}
use meta_text.Ipc.Validation.{peer_label}
use meta_text.Ipc.Validation.Labels.{peer_label-IsLabel, length-is_empty}

module _ (remote : ℕ) (peers : Peers) (peer : Peer) where
  -- a registered connection, after a change of it
  lookup_changed :
      (change : Peer → Peer)
      → lookup remote peers ≡ some peer
      → lookup remote (update_peer remote change peers) ≡ some (change peer)
  lookup_changed change found = ground (arith, lookup-update_peer remote change peers remote, found)

module _ (env : Ambient) (hex : Hex) (remote : ℕ) (payload : List ℕ) (m : NetworkManager) where
  abbrev announced : Text
  announced = trim (env.from_utf8_lossy payload)

  -- what `nickname_of` gives once the identity is in the registry
  nickname_kept :
      (peer : Peer)
      → lookup remote m.peers ≡ some peer
      → nickname_of remote (update_peer remote (with_identity announced) m.peers)
        ≡ (elim peer.nickname [ none ↦ [] | some name ↦ name ])
  unfolding nickname_of with_identity
  nickname_kept peer found =
      let here = lookup_changed remote m.peers peer (with_identity announced) found in
      rw (nickname_of, here) refl

  -- A connection whose peer has a name pins an identity as it arrives.
  identity_after_name :
      (peer : Peer) (name : Text)
      → lookup remote m.peers ≡ some peer
      → peer.nickname ≡ some name
      → is_empty name ≡ false
      → is_empty announced ≡ false
      → (accept_identity env hex remote payload m).pins
        ≡ (observe hex env.to_lowercase env.publishes env.now_ms name announced m.pins).1
  unfolding accept_identity pin_identity
  identity_after_name peer name found named long given =
      let same : nickname_of remote (update_peer remote (with_identity announced) m.peers) ≡ name =
        nickname_kept peer found ∙ rw named refl in
      rw (accept_identity, given, same, long) refl

  -- An identity that comes before the name is kept and not pinned.
  identity_before_name :
      (peer : Peer)
      → lookup remote m.peers ≡ some peer
      → peer.nickname ≡ none
      → is_empty announced ≡ false
      → ((accept_identity env hex remote payload m).pins ≡ m.pins)
        × (lookup remote (accept_identity env hex remote payload m).peers
            ≡ some (record peer { identity = some announced }))
  unfolding accept_identity pin_identity with_identity
  identity_before_name peer found nameless given =
      let same : nickname_of remote (update_peer remote (with_identity announced) m.peers) ≡ [] =
        nickname_kept peer found ∙ rw nameless refl in
      let here = lookup_changed remote m.peers peer (with_identity announced) found in
      (
        rw (accept_identity, given, same) refl,
        rw (accept_identity, given, same) (here ∙ rw (with_identity, given) refl),
      )

-- the pins after a name was announced on a connection that announced `identity`, if it did
abbrev pinned_with : Ambient → Hex → Text → NetworkManager → Option Text → PinStore
pinned_with env hex name m none = m.pins
pinned_with env hex name m (some identity) =
    (observe hex env.to_lowercase env.publishes env.now_ms name identity m.pins).1

pin_announced-pins :
    (env : Ambient) (hex : Hex) (remote : ℕ) (name : Text) (m : NetworkManager) (peer : Peer)
    → lookup remote m.peers ≡ some peer
    → (pin_announced env hex remote name m).pins ≡ pinned_with env hex name m peer.identity
unfolding pin_announced peer_identity pin_identity
pin_announced-pins env hex remote name m peer found = elim (Option-cases peer.identity) [
  | inl e ↦ rw (pin_announced, found, e) refl
  | inr (identity, e) ↦ rw (pin_announced, found, e) refl
]

module _ (env : Ambient) (hex : Hex) (mpsc : Channels) (remote : ℕ) (payload : List ℕ) where
  open mpsc use {Store}

  -- A greeting registers the name, and pins the identity that came before it.
  name_after_identity :
      (c : Store) (m : NetworkManager) (peer : Peer) (name : Text)
      → peer_label (env.from_utf8_lossy payload) ≡ some name
      → lookup remote m.peers ≡ some peer
      → let result = (accept_hello env hex mpsc remote payload c m).2 in
        (lookup remote result.peers ≡ some (record peer { nickname = some name }))
        × (result.pins ≡ pinned_with env hex name m peer.identity)
  unfolding accept_hello
  name_after_identity c m peer name label found =
      let named : NetworkManager = record m {
        peers = update_peer remote (with_nickname name) m.peers;
      } in
      let pinned = pin_announced env hex remote name named in
      let here = lookup_changed remote m.peers peer (with_nickname name) found in
      rw (accept_hello, label)
        (
          ap (lookup remote) (
                flush_outbox-peers mpsc env.now name remote c pinned
                ∙ pin_announced-peers env hex remote name named)
              ∙ here,
          flush_outbox-pins mpsc env.now name remote c pinned
              ∙ pin_announced-pins env hex remote name named (with_nickname name peer) here,
        )

-- On a connection that has announced nothing, a usable name and a non-empty identity leave the same
-- pins in either order: those after one observation of the identity under the name.
pub greeting_order :
    (env : Ambient) (hex : Hex) (mpsc : Channels) (remote : ℕ) (hello identity : List ℕ)
    (c : mpsc.Store) (m : NetworkManager) (peer : Peer) (name : Text)
    → lookup remote m.peers ≡ some peer
    → peer.nickname ≡ none
    → peer.identity ≡ none
    → peer_label (env.from_utf8_lossy hello) ≡ some name
    → is_empty (trim (env.from_utf8_lossy identity)) ≡ false
    → let seen =
        (observe hex env.to_lowercase env.publishes env.now_ms name
          (trim (env.from_utf8_lossy identity))
          m.pins).1 in
      ((accept_identity env hex remote identity (accept_hello env hex mpsc remote hello c m).2).pins
        ≡ seen)
      × ((accept_hello env hex mpsc remote hello c
            (accept_identity env hex remote identity m)).2.pins
          ≡ seen)
greeting_order env hex mpsc remote hello identity c m peer name found nameless unknown label given =
    let (_, long, _, _) = peer_label-IsLabel (env.from_utf8_lossy hello) name label in
    let (named, pins) = name_after_identity env hex mpsc remote hello c m peer name label found in
    let m1 = (accept_hello env hex mpsc remote hello c m).2 in
    let same : m1.pins ≡ m.pins = pins ∙ ap (pinned_with env hex name m) unknown in
    let (kept_pins, kept) =
      identity_before_name env hex remote identity m peer found nameless given in
    let m2 = accept_identity env hex remote identity m in
    let (_, later) = name_after_identity env hex mpsc remote hello c m2 _ name label kept in
    let observed = λ (p : PinStore).
      (observe hex env.to_lowercase env.publishes env.now_ms name
        (trim (env.from_utf8_lossy identity)) p).1 in
    (
      identity_after_name env hex remote identity m1 _ name named refl (length-is_empty name long)
            given
          ∙ ap observed same,
      later ∙ ap observed kept_pins,
    )
