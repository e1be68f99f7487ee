-- ===== src/Identity.antt =====
-- crates/meta-text-backend/src/identity.rs: the key pair that an instance announces, the agreement of
-- a pair key, and the file that keeps the secret. Random bytes, the digest and the file system's
-- answers are arguments.
pub mod Agreement
pub mod Stored
mod Tests
use meta_text.Prelude.{
  ℕ, zero, suc, Bool, List, [], ◌∷◌, ◌++◌, Option, none, some, Result, length, take, drop, ◌==◌,
  if◌then◌else◌,
}
use meta_text.Prelude.Text.{Text, trim, codes}
use meta_text.Prelude.Text.Order.{lex_leb}
use meta_text.Hex.{Hex}
use meta_text.Crypto.{Primitives, CryptoError, derivation_failed, key_length, or_error}

abbrev pub secret_length : ℕ
secret_length = key_length

abbrev pub identity_version : ℕ
identity_version = 1

abbrev pub fingerprint_bytes : ℕ
fingerprint_bytes = 16

abbrev pub fingerprint_group : ℕ
fingerprint_group = 4

abbrev pub pair_key_label : List ℕ
pair_key_label = codes "metaText/contact-key/v2"

pub record NetworkIdentity : Type 0 where
  pub secret : List ℕ
  pub public : List ℕ

pub record EphemeralKey : Type 0 where
  pub secret : List ℕ
  pub public : List ℕ

pub record StoredIdentity : Type 0 where
  pub version : ℕ
  pub secret : Text

-- What reading the identity file gives.
pub data IdentityFile : Type 0 where
  missing unreadable malformed : IdentityFile
  layout : StoredIdentity → IdentityFile

-- `bytes.chunks(n)` of at most `fuel` chunks
chunks : ℕ → ℕ → Text → List Text
chunks zero n s = []
chunks (suc fuel) n [] = []
chunks (suc fuel) n (c ∷ s) = take n (c ∷ s) ∷ chunks fuel n (drop n (c ∷ s))

-- `join("-")`
join_dash : List Text → Text
join_dash [] = []
join_dash (s ∷ []) = s
join_dash (s ∷ t ∷ ts) = s ++ codes "-" ++ join_dash (t ∷ ts)

-- the digest is SHA-256 of the public key
pub fingerprint : Hex → (List ℕ → List ℕ) → List ℕ → Text
unfolding chunks join_dash
fingerprint hex sha256 public_key =
    let shown = hex.encode_upper (take fingerprint_bytes (sha256 public_key)) in
    join_dash (chunks (length shown) fingerprint_group shown)

module _ (prims : Primitives) where
  unfoldable pub from_secret : List ℕ → NetworkIdentity
  from_secret secret = record { secret = secret; public = prims.x25519 secret prims.basepoint }

  unfoldable pub ephemeral_from_secret : List ℕ → EphemeralKey
  ephemeral_from_secret secret = record {
    secret = secret;
    public = prims.x25519 secret prims.basepoint;
  }

  pub agree : NetworkIdentity → List ℕ → List ℕ
  agree own peer_public = prims.x25519 own.secret peer_public

  -- the three agreements, in the order that the keys of the two ends decide
  pub pair_secrets : NetworkIdentity → EphemeralKey → List ℕ → List ℕ → List ℕ
  unfolding agree lex_leb
  pair_secrets own_static own_ephemeral peer_static peer_ephemeral =
      let ours = prims.x25519 own_ephemeral.secret peer_static in
      let theirs = agree own_static peer_ephemeral in
      agree own_static peer_static
      ++ (if lex_leb own_static.public peer_static then ours ++ theirs else theirs ++ ours)

  unfoldable pub pair_key :
      List ℕ → NetworkIdentity → EphemeralKey → List ℕ → List ℕ → Result CryptoError (List ℕ)
  unfolding pair_secrets or_error
  pair_key session_key own_static own_ephemeral peer_static peer_ephemeral =
      or_error derivation_failed (
        prims.hkdf pair_key_label session_key
          (pair_secrets own_static own_ephemeral peer_static peer_ephemeral) key_length)

module _ (hex : Hex) where
  unfoldable pub public_hex : NetworkIdentity → Text
  public_hex own = hex.encode_upper own.public

  unfoldable pub ephemeral_public_hex : EphemeralKey → Text
  ephemeral_public_hex own = hex.encode_upper own.public

  pub secret_hex : NetworkIdentity → Text
  secret_hex own = hex.encode own.secret

module _ (hex : Hex) (prims : Primitives) where
  -- `bytes.try_into()`, then the identity
  secret_of : Option (List ℕ) → Option NetworkIdentity
  unfolding from_secret
  secret_of none = none
  secret_of (some bytes) =
      if length bytes == secret_length then some (from_secret prims bytes) else none

  pub from_secret_hex : Text → Option NetworkIdentity
  unfolding secret_of
  from_secret_hex secret = secret_of (hex.decode (trim secret))

  pub load : IdentityFile → Option NetworkIdentity
  unfolding from_secret_hex
  load missing = none
  load unreadable = none
  load malformed = none
  load (layout stored) =
      if stored.version == identity_version then from_secret_hex stored.secret else none

  -- whether the write and the rename succeed; the file afterwards
  pub store : Bool → NetworkIdentity → IdentityFile → IdentityFile
  unfolding secret_hex
  store published own file =
      if published
      then layout (record { version = identity_version; secret = secret_hex hex own })
      else file

  -- `random` is what the generator gives when there is nothing to reuse
  pub load_or_create : Bool → List ℕ → IdentityFile → NetworkIdentity × IdentityFile
  unfolding load store from_secret
  load_or_create published random file = elim (load file) [
    | some own ↦ (own, file)
    | none ↦ (from_secret prims random, store published (from_secret prims random) file)
  ]
