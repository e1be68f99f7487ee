-- ===== src/Crypto/Static.antt =====
-- The static key of a pair, for `contact_key` of crates/meta-text-backend/src/crypto.rs.
use meta_text.Prelude.{ℕ, ◌≡◌, List, arith}
use meta_text.Prelude.Text.{Text}
use meta_text.Prelude.Text.Order.{lex_leb_total, lex_leb_antisym}
use meta_text.Crypto.{Primitives, normalize_identity, pair_info, contact_key}

pair_info_sym : (s t : Text) → pair_info s t ≡ pair_info t s
unfolding pair_info
pair_info_sym s t = ground (arith, lex_leb_total s t, lex_leb_antisym s t)

-- The two ends of a pair derive the same static key, or fail alike, in whichever order they name the
-- two identities.
pub contact_key_sym :
    (prims : Primitives) (session_key : List ℕ) (own peer : Text)
    → contact_key prims session_key own peer ≡ contact_key prims session_key peer own
unfolding contact_key
contact_key_sym prims session_key own peer =
    ground (arith, pair_info_sym (normalize_identity own) (normalize_identity peer))
