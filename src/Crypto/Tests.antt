-- ===== src/Crypto/Tests.antt =====
-- The keys of crates/meta-text-backend/src/crypto.rs on concrete identities.
use meta_text.Prelude.{◌≡◌}
use meta_text.Prelude.Text.{codes}
use meta_text.Crypto.{contact_key}
use meta_text.Crypto.Plain.{plain, repeated}
use meta_text.Crypto.Static.{contact_key_sym}

contact_key_sym_example :
    contact_key plain (repeated 32 5) (codes " b2 ") (codes "A1")
    ≡ contact_key plain (repeated 32 5) (codes "A1") (codes " b2 ")
contact_key_sym_example = contact_key_sym plain (repeated 32 5) (codes " b2 ") (codes "A1")
