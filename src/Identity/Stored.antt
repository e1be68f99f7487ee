-- ===== src/Identity/Stored.antt =====
-- The identity across runs, for `load_or_create` of crates/meta-text-backend/src/identity.rs.
use mathlib.Core.Path.{subst}
use meta_text.Prelude.{
  ℕ, ◌≡◌, refl, sym, true, Bool, inl, inr, List, none, some, length, All, Option-cases,
}
use meta_text.Prelude.Bytes.{IsByte}
use meta_text.Prelude.Text.Trim.{trim_id}
use meta_text.Hex.{Hex, HexLaws}
use meta_text.Crypto.{Primitives}
use meta_text.Identity.{
  NetworkIdentity, from_secret, secret_length, load, load_or_create, store, secret_hex,
  from_secret_hex, secret_of, IdentityFile,
}

module _ (hex : Hex) (laws : HexLaws hex) (prims : Primitives) where
  from_secret_hex-secret_hex :
      (secret : List ℕ)
      → length secret ≡ secret_length
      → All IsByte secret
      → from_secret_hex hex prims (secret_hex hex (from_secret prims secret))
        ≡ some (from_secret prims secret)
  unfolding from_secret_hex secret_hex secret_of from_secret
  from_secret_hex-secret_hex secret size bytes =
      rw (trim_id _ (laws.encode_no_space secret), laws.decode-encode secret bytes, size) refl

  -- what a published identity is loaded as
  pub load-store :
      (secret : List ℕ) (file : IdentityFile)
      → length secret ≡ secret_length
      → All IsByte secret
      → load hex prims (store hex prims true (from_secret prims secret) file)
        ≡ some (from_secret prims secret)
  unfolding load store
  load-store secret file size bytes = from_secret_hex-secret_hex secret size bytes

  load_or_create_known :
      (published : Bool) (random : List ℕ) (file : IdentityFile) (own : NetworkIdentity)
      → load hex prims file ≡ some own
      → load_or_create hex prims published random file ≡ (own, file)
  unfolding load_or_create
  load_or_create_known published random file own e = rw (load_or_create, e) refl

  load_or_create_new :
      (random : List ℕ) (file : IdentityFile)
      → load hex prims file ≡ none
      → load_or_create hex prims true random file
        ≡ (from_secret prims random, store hex prims true (from_secret prims random) file)
  unfolding load_or_create
  load_or_create_new random file e = rw (load_or_create, e) refl

  load_or_create_loaded :
      {result : NetworkIdentity × IdentityFile} {own : NetworkIdentity} {file : IdentityFile}
      (published : Bool) (later : List ℕ)
      → result ≡ (own, file)
      → load hex prims file ≡ some own
      → load_or_create hex prims published later result.1 ≡ result
  load_or_create_loaded {result} {own} {file} published later same e =
      subst (λ r. load_or_create hex prims published later r.1 ≡ r) (sym same)
        (load_or_create_known published later file own e)

  -- A run that can write its identity file fixes the identity: the next run has the same one, whatever
  -- its own generator and disk would give, and leaves the file as it is.
  pub load_or_create_again :
      (random : List ℕ) (file : IdentityFile) (published : Bool) (later : List ℕ)
      → length random ≡ secret_length
      → All IsByte random
      → let first = load_or_create hex prims true random file in
        load_or_create hex prims published later first.1 ≡ first
  load_or_create_again random file published later size bytes =
      elim (Option-cases (load hex prims file)) [
        | inl e ↦
            load_or_create_loaded published later (load_or_create_new random file e)
              (load-store random file size bytes)
        | inr (own, e) ↦
            load_or_create_loaded published later (load_or_create_known true random file own e) e
      ]
