-- ===== src/Hex.antt =====
-- The crate `hex`, which validation.rs, identity.rs, transport.rs and trust.rs call: its functions are
-- a parameter, and what the crate documents of them are the laws.
pub mod Digits
use meta_text.Prelude.{ℕ, ◌*◌, ◌<◌, ◌≡◌, false, List, Option, some, length, any, All}
use meta_text.Prelude.Bytes.{IsByte}
use meta_text.Prelude.Text.{Text, is_whitespace}

pub record Hex : Type 0 where
  pub encode : List ℕ → Text
  pub encode_upper : List ℕ → Text
  pub decode : Text → Option (List ℕ)

-- Two ASCII hexadecimal digits for each byte, none of them white space; decoding gives bytes, one for
-- two digits, and undoes either encoding.
pub record HexLaws (hex : Hex) : Type 0 where
  pub decode-encode : (bs : List ℕ) → All IsByte bs → hex.decode (hex.encode bs) ≡ some bs
  pub decode-encode_upper :
      (bs : List ℕ) → All IsByte bs → hex.decode (hex.encode_upper bs) ≡ some bs
  pub length-encode : (bs : List ℕ) → length (hex.encode bs) ≡ 2 * length bs
  pub length-decode : (s : Text) (bs : List ℕ) → hex.decode s ≡ some bs → length s ≡ 2 * length bs
  pub decode-IsByte : (s : Text) (bs : List ℕ) → hex.decode s ≡ some bs → All IsByte bs
  pub encode_ascii : (bs : List ℕ) → All (λ c. c < 128) (hex.encode bs)
  pub encode_no_space : (bs : List ℕ) → any is_whitespace (hex.encode bs) ≡ false
  pub encode_upper_no_space : (bs : List ℕ) → any is_whitespace (hex.encode_upper bs) ≡ false
