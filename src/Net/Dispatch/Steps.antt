-- ===== src/Net/Dispatch/Steps.antt =====
-- Every frame makes an allowed step of the registry, in crates/meta-text-backend/src/network.rs.
use meta_text.Prelude.{
  ℕ, ◌≡◌, refl, ◌∙◌, inl, inr, List, [], ◌∷◌, ◌++◌, Bool-cases, Option-cases, Result-cases, ◌==◌,
  ◌||◌, drop,
}
use meta_text.Prelude.Text.{Text, is_empty, trim}
use meta_text.Prelude.Assoc.{lookup, number_key}
use meta_text.Hex.{Hex}
use meta_text.Crypto.{Primitives}
use meta_text.Net.Frame.{
  message_attributes_of, decode_message_id, message_id_len, frame_message, frame_action,
  frame_binary,
}
use meta_text.Net.Peers.{
  Channels, NetworkManager, frame_hello, frame_ack, frame_identity, frame_ephemeral,
  frame_keepalive,
}
use meta_text.Net.Sending.Kept.{flush_outbox-peers, queue_to-peers}
use meta_text.Net.Keys.{decrypt_from}
use meta_text.Net.Dispatch.{
  Ambient, AppEvent, update_peer, with_nickname, with_identity, with_ephemeral, with_keepalive,
  accept_hello, accept_identity, accept_ephemeral, accept_keepalive, accept_message, pin_announced,
  pin_identity, dispatch, ephemeral_of, nickname_of, peer_identity,
}
use meta_text.Net.Dispatch.Registry.{
  IsStep, Continues, HasLabels, Keeps-refl, Keeps-trans, IsStep-Continues, IsStep-HasLabels,
  with_nickname-IsAllowed, with_identity-IsAllowed, with_keepalive-IsAllowed,
  with_ephemeral-IsAllowed,
}
use meta_text.Ipc.Validation.{peer_label}
use meta_text.Ipc.Validation.Labels.{peer_label-IsLabel}

module _ (env : Ambient) (hex : Hex) where
  accept_identity-IsStep :
      (remote : ℕ) (payload : List ℕ) (m : NetworkManager)
      → IsStep remote m.peers (accept_identity env hex remote payload m).peers
  unfolding accept_identity pin_identity
  accept_identity-IsStep remote payload m =
      let identity = trim (env.from_utf8_lossy payload) in
      let step : IsStep remote m.peers (update_peer remote (with_identity identity) m.peers) =
        inr (with_identity identity, refl, with_identity-IsAllowed identity) in
      elim (Bool-cases (
        is_empty identity
        || is_empty (nickname_of remote (update_peer remote (with_identity identity) m.peers)))) [
          | inl e ↦ rw (accept_identity, e) step
          | inr e ↦ rw (accept_identity, e) step
        ]

  pub pin_announced-peers :
      (remote : ℕ) (nickname : Text) (m : NetworkManager)
      → (pin_announced env hex remote nickname m).peers ≡ m.peers
  unfolding pin_announced pin_identity
  pin_announced-peers remote nickname m = elim (Option-cases (peer_identity remote m.peers)) [
    | inl e ↦ rw (pin_announced, e) refl
    | inr (identity, e) ↦ rw (pin_announced, e) refl
  ]

  module _ (mpsc : Channels) where
    open mpsc use {Store}

    accept_hello-IsStep :
        (remote : ℕ) (payload : List ℕ) (c : Store) (m : NetworkManager)
        → IsStep remote m.peers (accept_hello env hex mpsc remote payload c m).2.peers
    unfolding accept_hello
    accept_hello-IsStep remote payload c m =
        elim (Option-cases (peer_label (env.from_utf8_lossy payload))) [
          | inl e ↦ rw (accept_hello, e) (inl refl)
          | inr (name, e) ↦
              let named : NetworkManager = record m {
                peers = update_peer remote (with_nickname name) m.peers;
              } in
              let pinned = pin_announced env hex remote name named in
              let (_, _, label, _) = peer_label-IsLabel (env.from_utf8_lossy payload) name e in
              rw (accept_hello, e)
                (inr (
                  with_nickname name,
                  flush_outbox-peers mpsc env.now name remote c pinned
                      ∙ pin_announced-peers remote name named,
                  with_nickname-IsAllowed name label,
                ))
        ]

    accept_message-peers :
        (prims : Primitives) (frame remote : ℕ) (payload : List ℕ) (c : Store) (m : NetworkManager)
        → (accept_message env hex mpsc prims frame remote payload c m).2.peers ≡ m.peers
    unfolding accept_message
    accept_message-peers prims frame remote payload c m =
        elim (Option-cases (message_attributes_of frame)) [
          | inl e ↦ rw (accept_message, e) refl
          | inr (attributes, e) ↦ elim (Option-cases (decode_message_id payload)) [
            | inl e' ↦ rw (accept_message, e, e') refl
            | inr (message_id, e') ↦
                elim (Result-cases
                  (decrypt_from hex prims remote (drop message_id_len payload) m)) [
                    | inl (failure, e'') ↦ rw (accept_message, e, e', e'') refl
                    | inr (plaintext, e'') ↦
                        rw (accept_message, e, e', e'') (queue_to-peers mpsc remote _ c m)
                  ]
          ]
        ]

    pub dispatch-IsStep :
        (prims : Primitives) (kind : ℕ) (payload : List ℕ) (remote : ℕ) (c : Store)
        (m : NetworkManager)
        → IsStep remote m.peers (dispatch env hex mpsc prims kind payload remote c m).2.peers
    unfolding dispatch accept_ephemeral accept_keepalive
    dispatch-IsStep prims kind payload remote c m = elim (Bool-cases (kind == frame_hello)) [
      | inl e ↦ rw e (accept_hello-IsStep remote payload c m)
      | inr e1 ↦ elim (Bool-cases (kind == frame_identity)) [
        | inl e ↦ rw (e1, e) (accept_identity-IsStep remote payload m)
        | inr e2 ↦ elim (Bool-cases (kind == frame_ephemeral)) [
          | inl e ↦
              rw (e1, e2, e)
                (inr
                  (with_ephemeral _, refl, with_ephemeral-IsAllowed (ephemeral_of env hex payload)))
          | inr e3 ↦
              elim (Bool-cases
                (kind == frame_message || kind == frame_action || kind == frame_binary)) [
                  | inl e ↦
                      rw (e1, e2, e3, e) (inl (accept_message-peers prims kind remote payload c m))
                  | inr e4 ↦ elim (Bool-cases (kind == frame_ack)) [
                    | inl e ↦ rw (e1, e2, e3, e4, e) (inl refl)
                    | inr e5 ↦ elim (Bool-cases (kind == frame_keepalive)) [
                      | inl e ↦
                          rw (e1, e2, e3, e4, e5, e)
                            (inr (with_keepalive, refl, with_keepalive-IsAllowed))
                      | inr e6 ↦ rw (e1, e2, e3, e4, e5, e6) (inl refl)
                    ]
                  ]
                ]
        ]
      ]
    ]

module _ (env : Ambient) (hex : Hex) (mpsc : Channels) (prims : Primitives) where
  open mpsc use {Store}

  -- The frames of all connections, one after another: a kind, a payload and an address.
  abbrev pub dispatch_all :
      List (ℕ × List ℕ × ℕ) → Store → NetworkManager → List AppEvent × Store × NetworkManager
  dispatch_all [] c m = ([], c, m)
  dispatch_all ((kind, payload, remote) ∷ frames) c m =
      let (events, c', m') = dispatch env hex mpsc prims kind payload remote c m in
      let (later, c'', m'') = dispatch_all frames c' m' in (events ++ later, c'', m'')

  -- Whatever frames the peers send, no connection appears or vanishes by them; each keeps its queue, its
  -- own ephemeral key, and the first usable ephemeral key that its peer announced; one that has a name
  -- keeps having one, and one that sent a keepalive stays marked.
  pub dispatch_all-Continues :
      (frames : List (ℕ × List ℕ × ℕ)) (c : Store) (m : NetworkManager)
      → Continues m.peers (dispatch_all frames c m).2.peers
  dispatch_all-Continues [] c m j = Keeps-refl (lookup j m.peers)
  dispatch_all-Continues ((kind, payload, remote) ∷ frames) c m j =
      let (events, c', m') = dispatch env hex mpsc prims kind payload remote c m in
      Keeps-trans (lookup j m.peers) (lookup j m'.peers)
        (lookup j (dispatch_all frames c' m').2.peers)
        (IsStep-Continues remote m.peers m'.peers
          (dispatch-IsStep env hex mpsc prims kind payload remote c m) j)
        (dispatch_all-Continues frames c' m' j)

  -- Whatever frames the peers send, every name in the registry stays a label: trimmed, of at most 64
  -- characters, and free of the control characters that a terminal would interpret.
  pub dispatch_all-HasLabels :
      (frames : List (ℕ × List ℕ × ℕ)) (c : Store) (m : NetworkManager)
      → HasLabels m.peers
      → HasLabels (dispatch_all frames c m).2.peers
  dispatch_all-HasLabels [] c m labels = labels
  dispatch_all-HasLabels ((kind, payload, remote) ∷ frames) c m labels =
      let (events, c', m') = dispatch env hex mpsc prims kind payload remote c m in
      dispatch_all-HasLabels frames c' m' (
        IsStep-HasLabels remote m.peers m'.peers
          (dispatch-IsStep env hex mpsc prims kind payload remote c m) labels)
