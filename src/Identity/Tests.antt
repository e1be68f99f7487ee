-- ===== src/Identity/Tests.antt =====
-- The identity file of crates/meta-text-backend/src/identity.rs on a first and a second run.
use meta_text.Prelude.{◌≡◌, refl, true, false, All, arith}
use meta_text.Prelude.Bytes.{IsByte}
use meta_text.Hex.Digits.{digits, digits_laws}
use meta_text.Crypto.Plain.{plain, repeated, repeated-IsByte}
use meta_text.Identity.{load_or_create, missing}
use meta_text.Identity.Stored.{load_or_create_again}

sevens : All IsByte (repeated 32 7)
sevens = repeated-IsByte 32 7 (omega arith)

load_or_create_again_example :
    let first = load_or_create digits plain true (repeated 32 7) missing in
    load_or_create digits plain false (repeated 32 8) first.1 ≡ first
load_or_create_again_example =
    load_or_create_again digits digits_laws plain (repeated 32 7) missing false (repeated 32 8) refl
      sevens
