-- ===== src/Net/Keys.antt =====
-- Which key a payload of one connection is sealed under and opened with, in
-- crates/meta-text-backend/src/network.rs.
pub mod Agreed
mod Tests
use meta_text.Prelude.{
  ℕ, Bool, List, [], ◌∷◌, ◌++◌, Option, none, some, Result, ok, err, if◌then◌else◌,
}
use meta_text.Prelude.Text.{Text, trim, to_ascii_lowercase}
use meta_text.Prelude.Assoc.{lookup, number_key}
use meta_text.Hex.{Hex}
use meta_text.Crypto.{
  Primitives, CryptoManager, CryptoError, contact_key, encrypt, encrypt_with, decrypt, decrypt_with,
}
use meta_text.Identity.{NetworkIdentity, EphemeralKey, public_hex, pair_key}
use meta_text.Trust.{public_key_from_hex}
use meta_text.Net.Peers.{NetworkManager, Peer, Peers, answers_to}

-- the peer that `find` gives
pub find_peer : Text → Peers → Option Peer
find_peer wanted [] = none
find_peer wanted ((remote, peer) ∷ peers) =
    let rest = find_peer wanted peers in if answers_to wanted peer then some peer else rest

-- what a derivation adds to the list of keys
derived : Result CryptoError (List ℕ) → List (List ℕ)
derived (err e) = []
derived (ok key) = key ∷ []

-- `peer_ephemeral.and_then(…)`
parsed : (Text → Option (List ℕ)) → Option Text → Option (List ℕ)
parsed parse none = none
parsed parse (some s) = parse s

-- `keys.into_iter().next()`
first_key : List (List ℕ) → Option (List ℕ)
first_key [] = none
first_key (key ∷ keys) = some key

module _ (prims : Primitives) where
  -- the session key is the last candidate
  try_keys : CryptoManager → List (List ℕ) → List ℕ → Result CryptoError (List ℕ)
  try_keys crypto [] ciphertext = decrypt prims crypto ciphertext
  try_keys crypto (key ∷ keys) ciphertext =
      let rest = try_keys crypto keys ciphertext in
      elim (decrypt_with prims crypto key ciphertext) [ ok plaintext ↦ ok plaintext | err e ↦ rest ]

module _ (hex : Hex) (prims : Primitives) where
  -- the agreed key, where both public keys of the peer parse
  agreed :
      List ℕ → NetworkIdentity → EphemeralKey → Option (List ℕ) → Option (List ℕ) → List (List ℕ)
  unfolding derived
  agreed session_key own own_ephemeral (some peer_static) (some peer_ephemeral) =
      derived (pair_key prims session_key own own_ephemeral peer_static peer_ephemeral)
  agreed session_key own own_ephemeral (some peer_static) none = []
  agreed session_key own own_ephemeral none peer_ephemeral = []

  pub pair_keys : List ℕ → NetworkIdentity → EphemeralKey → Text → Option Text → List (List ℕ)
  unfolding agreed parsed
  pair_keys session_key own own_ephemeral peer_identity peer_ephemeral =
      agreed session_key own own_ephemeral (public_key_from_hex hex peer_identity)
        (parsed (public_key_from_hex hex) peer_ephemeral)
      ++ derived (contact_key prims session_key (public_hex hex own) peer_identity)

  -- the keys of a peer that was found, by an instance that has `own`
  keys_of : CryptoManager → Option NetworkIdentity → Option Peer → List (List ℕ)
  unfolding pair_keys
  keys_of crypto none peer = []
  keys_of crypto (some own) none = []
  keys_of crypto (some own) (some peer) = elim peer.identity [
    | none ↦ []
    | some identity ↦ pair_keys crypto.key own peer.ephemeral identity peer.remote_ephemeral
  ]

  -- what `NetworkManager::contact_key` seals under; `m.identity` is what `try_read` shows of the identity:
  -- none also while another task writes it, since the code answers both in one way, here and below
  pub peer_contact_key : Text → NetworkManager → Option (List ℕ)
  unfolding find_peer keys_of first_key
  peer_contact_key nickname m =
      first_key
        (keys_of m.crypto m.identity (find_peer (to_ascii_lowercase (trim nickname)) m.peers))

  pub connection_keys : ℕ → NetworkManager → List (List ℕ)
  unfolding keys_of
  connection_keys remote m = keys_of m.crypto m.identity (lookup remote m.peers)

  pub decrypt_from : ℕ → List ℕ → NetworkManager → Result CryptoError (List ℕ)
  unfolding connection_keys try_keys
  decrypt_from remote ciphertext m = try_keys prims m.crypto (connection_keys remote m) ciphertext

  -- the encryption of `send_to_peer`
  pub encrypt_for : List ℕ → Text → List ℕ → NetworkManager → Result CryptoError (List ℕ)
  unfolding peer_contact_key
  encrypt_for nonce nickname plaintext m = elim (peer_contact_key nickname m) [
    | some key ↦ encrypt_with prims m.crypto nonce key plaintext
    | none ↦ encrypt prims m.crypto nonce plaintext
  ]
