-- ===== src/Net/Keys/Tests.antt =====
-- The keys of crates/meta-text-backend/src/network.rs on two connected instances.
use meta_text.Prelude.{ℕ, ◌≡◌, ◌≢◌, refl, List, [], ◌∷◌, ◌++◌, some, ok}
use meta_text.Prelude.Text.{codes, trim, is_whitespace, to_ascii_lowercase, text_eq}
use meta_text.Prelude.Assoc.{lookup, number_key}
use meta_text.Hex.Digits.{digits, digits_laws}
use meta_text.Crypto.{encrypt_with, with_nonce, or_error}
use meta_text.Crypto.Plain.{plain, plain_laws, repeated}
use meta_text.Identity.{
  from_secret, ephemeral_from_secret, public_hex, ephemeral_public_hex, pair_key,
}
use meta_text.Trust.{public_key_from_hex, try_into_key}
use meta_text.Net.Peers.{answers_to}
use meta_text.Net.Peers.Examples.{alice, bob, to_bob, to_alice}
use meta_text.Net.Keys.{
  find_peer, encrypt_for, decrypt_from, peer_contact_key, keys_of, pair_keys, agreed, derived,
  parsed, first_key,
}
use meta_text.Net.Keys.Agreed.{HasGreeted, sealed_is_opened}

abbrev hello : List ℕ
hello = codes "hello"

abbrev nonce : List ℕ
nonce = repeated 12 0

alice_greeted : HasGreeted digits plain alice to_bob (1 ∷ []) (3 ∷ []) (2 ∷ []) (4 ∷ [])
alice_greeted = record {
  own_identity = refl;
  own_announced = refl;
  identity_announced = refl;
  ephemeral_announced = refl;
}

bob_greeted : HasGreeted digits plain bob to_alice (2 ∷ []) (4 ∷ []) (1 ∷ []) (3 ∷ [])
bob_greeted = record {
  own_identity = refl;
  own_announced = refl;
  identity_announced = refl;
  ephemeral_announced = refl;
}

different : (from_secret plain (1 ∷ [])).public ≢ (from_secret plain (2 ∷ [])).public
unfolding from_secret
different e = cc

bob_found : find_peer (to_ascii_lowercase (trim (codes " bob "))) alice.peers ≡ some to_bob
unfolding find_peer answers_to trim is_whitespace to_ascii_lowercase text_eq
bob_found = refl

alice_registered : lookup 4 bob.peers ≡ some to_alice
unfolding lookup
alice_registered = refl

encrypted : encrypt_for digits plain nonce (codes " bob ") hello alice ≡ ok (nonce ++ 1 ∷ hello)
unfolding encrypt_for peer_contact_key find_peer answers_to trim is_whitespace to_ascii_lowercase
    text_eq keys_of pair_keys agreed derived parsed first_key public_key_from_hex try_into_key
    digits pair_key or_error encrypt_with with_nonce from_secret ephemeral_from_secret public_hex
    ephemeral_public_hex
encrypted = refl

sealed_is_opened_example : decrypt_from digits plain 4 (nonce ++ 1 ∷ hello) bob ≡ ok hello
sealed_is_opened_example =
    sealed_is_opened digits digits_laws plain plain_laws (1 ∷ []) (2 ∷ []) (3 ∷ []) (4 ∷ []) alice
      bob to_bob to_alice 4 nonce (codes " bob ") hello (nonce ++ 1 ∷ hello) alice_greeted
      bob_greeted different refl bob_found alice_registered refl encrypted
