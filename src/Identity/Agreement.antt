-- ===== src/Identity/Agreement.antt =====
-- The agreement of two ends, for `pair_key` of crates/meta-text-backend/src/identity.rs.
use meta_text.Prelude.{ℕ, ◌≡◌, ◌≢◌, refl, inl, inr, List}
use meta_text.Prelude.Text.Order.{lex_leb_flip}
use meta_text.Crypto.{Primitives, PrimitiveLaws}
use meta_text.Identity.{from_secret, ephemeral_from_secret, agree, pair_secrets, pair_key}

module _ (prims : Primitives) (laws : PrimitiveLaws prims) (a b ea eb : List ℕ) where
  -- The two ends feed the same bytes to the derivation.
  pair_secrets_agree :
      (from_secret prims a).public ≢ (from_secret prims b).public
      → pair_secrets prims
          (from_secret prims a)
          (ephemeral_from_secret prims ea)
          (from_secret prims b).public
          (ephemeral_from_secret prims eb).public
        ≡ pair_secrets prims
            (from_secret prims b)
            (ephemeral_from_secret prims eb)
            (from_secret prims a).public
            (ephemeral_from_secret prims ea).public
  unfolding pair_secrets from_secret ephemeral_from_secret agree
  pair_secrets_agree different = elim (lex_leb_flip _ _ different) [
    | inl (h, k) ↦
        rw (h, k, laws.x25519_agrees a b, laws.x25519_agrees a eb, laws.x25519_agrees ea b) refl
    | inr (h, k) ↦
        rw (h, k, laws.x25519_agrees a b, laws.x25519_agrees a eb, laws.x25519_agrees ea b) refl
  ]

  -- Two ends whose static keys differ agree on one pair key, each from its own secrets and from what
  -- the other announces.
  pub pair_key_agrees :
      (session_key : List ℕ)
      → (from_secret prims a).public ≢ (from_secret prims b).public
      → pair_key prims session_key
          (from_secret prims a)
          (ephemeral_from_secret prims ea)
          (from_secret prims b).public
          (ephemeral_from_secret prims eb).public
        ≡ pair_key prims session_key
            (from_secret prims b)
            (ephemeral_from_secret prims eb)
            (from_secret prims a).public
            (ephemeral_from_secret prims ea).public
  unfolding pair_key
  pair_key_agrees session_key different = rw (pair_secrets_agree different) refl
