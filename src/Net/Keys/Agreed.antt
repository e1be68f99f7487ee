-- ===== src/Net/Keys/Agreed.antt =====
-- The two ends of a connection seal and open under one key, in
-- crates/meta-text-backend/src/network.rs.
use mathlib.Core.Path.{subst}
use meta_text.Prelude.{
  ℕ, ◌≡◌, ◌≢◌, refl, sym, ap, ◌∙◌, List, [], ◌∷◌, ◌++◌, none, some, ok, length, All,
}
use meta_text.Prelude.Bytes.{IsByte}
use meta_text.Prelude.Text.{Text, trim, to_ascii_lowercase}
use meta_text.Prelude.Text.Trim.{trim_id}
use meta_text.Prelude.Assoc.{lookup, number_key}
use meta_text.Hex.{Hex, HexLaws}
use meta_text.Crypto.{
  Primitives, PrimitiveLaws, CryptoManager, nonce_length, contact_key, encrypt, encrypt_with,
  decrypt, decrypt_with,
}
use meta_text.Crypto.Envelope.{decrypt_with-encrypt_with}
use meta_text.Crypto.Static.{contact_key_sym}
use meta_text.Identity.{
  from_secret, ephemeral_from_secret, public_hex, ephemeral_public_hex, pair_key,
}
use meta_text.Identity.Agreement.{pair_key_agrees}
use meta_text.Trust.{public_key_from_hex, try_into_key, public_key_length}
use meta_text.Net.Peers.{NetworkManager, Peer}
use meta_text.Net.Keys.{
  derived, parsed, agreed, pair_keys, keys_of, first_key, find_peer, peer_contact_key,
  connection_keys, try_keys, decrypt_from, encrypt_for,
}

module _ (hex : Hex) (laws : HexLaws hex) where
  -- An announced public key parses back.
  public_key_from_hex-encode_upper :
      (bytes : List ℕ)
      → length bytes ≡ public_key_length
      → All IsByte bytes
      → public_key_from_hex hex (hex.encode_upper bytes) ≡ some bytes
  unfolding public_key_from_hex try_into_key
  public_key_from_hex-encode_upper bytes size is_bytes =
      rw
        (
          trim_id _ (laws.encode_upper_no_space bytes),
          laws.decode-encode_upper bytes is_bytes,
          size,
        )
        refl

module _ (hex : Hex) (hex_laws : HexLaws hex) (prims : Primitives) (laws : PrimitiveLaws prims)
    (session_key a b ea eb : List ℕ) where
  -- what the end with the secrets (own, ephemeral) announces, read by the other end
  pair_keys_computed :
      (own own_ephemeral other other_ephemeral : List ℕ)
      → let peer = from_secret prims other in
        let announced = ephemeral_from_secret prims other_ephemeral in
        pair_keys hex prims session_key
          (from_secret prims own)
          (ephemeral_from_secret prims own_ephemeral)
          (public_hex hex peer)
          (some (ephemeral_public_hex hex announced))
        ≡ derived (
            pair_key prims session_key
              (from_secret prims own)
              (ephemeral_from_secret prims own_ephemeral)
              peer.public
              announced.public)
          ++ derived (
              contact_key prims session_key
                (public_hex hex (from_secret prims own))
                (public_hex hex peer))
  unfolding pair_keys agreed parsed public_hex ephemeral_public_hex from_secret
      ephemeral_from_secret
  pair_keys_computed own own_ephemeral other other_ephemeral =
      rw
        (
          public_key_from_hex-encode_upper hex hex_laws _ (laws.length-x25519 other prims.basepoint)
              (laws.x25519-IsByte other prims.basepoint),
          public_key_from_hex-encode_upper hex hex_laws _
              (laws.length-x25519 other_ephemeral prims.basepoint)
              (laws.x25519-IsByte other_ephemeral prims.basepoint),
        )
        refl

  -- The two ends try the same keys in the same order.
  pub pair_keys_agree :
      (from_secret prims a).public ≢ (from_secret prims b).public
      → pair_keys hex prims session_key
          (from_secret prims a)
          (ephemeral_from_secret prims ea)
          (public_hex hex (from_secret prims b))
          (some (ephemeral_public_hex hex (ephemeral_from_secret prims eb)))
        ≡ pair_keys hex prims session_key
            (from_secret prims b)
            (ephemeral_from_secret prims eb)
            (public_hex hex (from_secret prims a))
            (some (ephemeral_public_hex hex (ephemeral_from_secret prims ea)))
  pair_keys_agree different =
      let one = pair_key_agrees prims laws a b ea eb session_key different in
      let two =
        contact_key_sym prims session_key (public_hex hex (from_secret prims a))
          (public_hex hex (from_secret prims b)) in
      pair_keys_computed a ea b eb
      ∙ ap
          (λ k.
            derived k
            ++ derived (
                contact_key prims session_key (public_hex hex (from_secret prims a))
                  (public_hex hex (from_secret prims b))))
          one
      ∙ ap
          (λ k.
            derived (
              pair_key prims session_key (from_secret prims b) (ephemeral_from_secret prims eb)
                (from_secret prims a).public (ephemeral_from_secret prims ea).public)
            ++ derived k)
          two
      ∙ sym (pair_keys_computed b eb a ea)

module _ (prims : Primitives) (laws : PrimitiveLaws prims) where
  -- The first key of a list, or the session key where there is none, opens what it sealed.
  try_keys-encrypt :
      (sender receiver : CryptoManager) (keys : List (List ℕ)) (nonce plain envelope : List ℕ)
      → sender.enabled ≡ receiver.enabled
      → sender.key ≡ receiver.key
      → length nonce ≡ nonce_length
      → (elim (first_key keys) [
        | some key ↦ encrypt_with prims sender nonce key plain
        | none ↦ encrypt prims sender nonce plain
      ])
        ≡ ok envelope
      → try_keys prims receiver keys envelope ≡ ok plain
  unfolding try_keys first_key encrypt decrypt
  try_keys-encrypt sender receiver [] nonce plain envelope same same_key size e =
      subst (λ k. decrypt_with prims receiver k envelope ≡ ok plain) same_key
        (decrypt_with-encrypt_with prims laws sender receiver nonce sender.key plain envelope same
          size e)
  try_keys-encrypt sender receiver (key ∷ keys) nonce plain envelope same same_key size e =
      rw
        (
          try_keys,
          decrypt_with-encrypt_with prims laws sender receiver nonce key plain envelope same size e,
        )
        refl

module _ (hex : Hex) (prims : Primitives) (laws : PrimitiveLaws prims) where
  -- Two ends that derive the same keys for their connection understand each other.
  decrypt_from-encrypt_for :
      (sender receiver : NetworkManager) (remote : ℕ) (nonce : List ℕ) (nickname : Text)
      (plain envelope : List ℕ)
      → keys_of hex prims sender.crypto sender.identity
          (find_peer (to_ascii_lowercase (trim nickname)) sender.peers)
        ≡ connection_keys hex prims remote receiver
      → sender.crypto.enabled ≡ receiver.crypto.enabled
      → sender.crypto.key ≡ receiver.crypto.key
      → length nonce ≡ nonce_length
      → encrypt_for hex prims nonce nickname plain sender ≡ ok envelope
      → decrypt_from hex prims remote envelope receiver ≡ ok plain
  unfolding encrypt_for decrypt_from peer_contact_key
  decrypt_from-encrypt_for sender receiver remote nonce nickname plain envelope same enabled key
        size e =
      subst (λ ks. try_keys prims receiver.crypto ks envelope ≡ ok plain) same
        (try_keys-encrypt prims laws sender.crypto receiver.crypto _ nonce plain envelope enabled
          key size e)

-- `m` has the identity of the secret `own`, and `peer` is a connection on which it announced the
-- ephemeral key of `own_ephemeral` and the other end announced the keys of `other`, `other_ephemeral`.
pub record HasGreeted (hex : Hex) (prims : Primitives) (m : NetworkManager) (peer : Peer)
    (own own_ephemeral other other_ephemeral : List ℕ) : Type 0 where
  pub own_identity : m.identity ≡ some (from_secret prims own)
  pub own_announced : peer.ephemeral ≡ ephemeral_from_secret prims own_ephemeral
  pub identity_announced : peer.identity ≡ some (public_hex hex (from_secret prims other))
  pub ephemeral_announced :
      peer.remote_ephemeral
      ≡ some (ephemeral_public_hex hex (ephemeral_from_secret prims other_ephemeral))

keys_of-HasGreeted :
    (hex : Hex) (prims : Primitives) (m : NetworkManager) (peer : Peer)
    (own own_ephemeral other other_ephemeral : List ℕ)
    → HasGreeted hex prims m peer own own_ephemeral other other_ephemeral
    → keys_of hex prims m.crypto m.identity (some peer)
      ≡ pair_keys hex prims m.crypto.key
          (from_secret prims own)
          (ephemeral_from_secret prims own_ephemeral)
          (public_hex hex (from_secret prims other))
          (some (ephemeral_public_hex hex (ephemeral_from_secret prims other_ephemeral)))
unfolding keys_of
keys_of-HasGreeted hex prims m peer own own_ephemeral other other_ephemeral g =
    rw (g.own_identity, g.identity_announced, g.own_announced, g.ephemeral_announced) refl

connection_keys_of :
    (hex : Hex) (prims : Primitives) (remote : ℕ) (m : NetworkManager)
    → keys_of hex prims m.crypto m.identity (lookup remote m.peers)
      ≡ connection_keys hex prims remote m
unfolding connection_keys
connection_keys_of hex prims remote m = refl

module _ (hex : Hex) (hex_laws : HexLaws hex) (prims : Primitives) (laws : PrimitiveLaws prims)
    (a b ea eb : List ℕ) (sender receiver : NetworkManager) (there back : Peer) (remote : ℕ) where
  -- Two instances with one session key whose identities differ, and whose connection has carried both
  -- greetings: what the sender encrypts for the peer that it finds under a name, with a nonce of twelve
  -- bytes, the receiver decrypts from that connection to the same plaintext.
  pub sealed_is_opened :
      (nonce : List ℕ) (nickname : Text) (plain envelope : List ℕ)
      → HasGreeted hex prims sender there a ea b eb
      → HasGreeted hex prims receiver back b eb a ea
      → (from_secret prims a).public ≢ (from_secret prims b).public
      → sender.crypto ≡ receiver.crypto
      → find_peer (to_ascii_lowercase (trim nickname)) sender.peers ≡ some there
      → lookup remote receiver.peers ≡ some back
      → length nonce ≡ nonce_length
      → encrypt_for hex prims nonce nickname plain sender ≡ ok envelope
      → decrypt_from hex prims remote envelope receiver ≡ ok plain
  sealed_is_opened nonce nickname plain envelope greeted answered different session found registered
        size e =
      let session_key : sender.crypto.key ≡ receiver.crypto.key =
        ap (λ crypto. crypto.key) session in
      let keys =
        ap (keys_of hex prims sender.crypto sender.identity) found
        ∙ keys_of-HasGreeted hex prims sender there a ea b eb greeted
        ∙ pair_keys_agree hex hex_laws prims laws sender.crypto.key a b ea eb different
        ∙ ap
            (λ k.
              pair_keys hex prims k (from_secret prims b) (ephemeral_from_secret prims eb)
                (public_hex hex (from_secret prims a))
                (some (ephemeral_public_hex hex (ephemeral_from_secret prims ea))))
            session_key
        ∙ sym (keys_of-HasGreeted hex prims receiver back b eb a ea answered)
        ∙ ap (keys_of hex prims receiver.crypto receiver.identity) (sym registered) in
      decrypt_from-encrypt_for hex prims laws sender receiver remote nonce nickname plain envelope
        (keys ∙ connection_keys_of hex prims remote receiver)
        (ap (λ crypto. crypto.enabled) session) session_key size e
