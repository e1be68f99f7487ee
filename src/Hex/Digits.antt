-- ===== src/Hex/Digits.antt =====
-- A codec that meets the laws of the crate `hex`, for the examples.
use mathlib.Core.Path.{subst}
use meta_text.Prelude.{
  ℕ, ◌+◌, ◌-◌, ◌*◌, ◌/◌, ◌%◌, ◌<◌, ◌≡◌, refl, ◌⊎◌, inl, inr, false, ◌&&◌, List, [], ◌∷◌, Option,
  none, some, length, any, All, ltb, leb, if◌then◌else◌, arith,
}
use meta_text.Prelude.Bytes.{IsByte}
use meta_text.Prelude.Text.{Text, is_whitespace}
use meta_text.Hex.{Hex, HexLaws}

-- The digit of a value below 16, with the letters from `a`.
digit : ℕ → ℕ → ℕ
digit a v = let h = v % 16 in if ltb h 10 then h + 48 else h - 10 + a

value : ℕ → Option ℕ
value c =
    if leb 48 c && leb c 57
    then some (c - 48)
    else if leb 97 c && leb c 102
    then some (c - 97 + 10)
    else if leb 65 c && leb c 70
    then some (c - 65 + 10)
    else none

encode_with : ℕ → List ℕ → Text
encode_with a [] = []
encode_with a (b ∷ bs) = digit a (b / 16) ∷ digit a b ∷ encode_with a bs

join : Option ℕ → Option ℕ → Option (List ℕ) → Option (List ℕ)
join (some h) (some l) (some bs) = some ((h * 16 + l) ∷ bs)
join _ _ _ = none

decode : Text → Option (List ℕ)
decode [] = some []
decode (c ∷ []) = none
decode (c ∷ d ∷ s) = join (value c) (value d) (decode s)

unfoldable pub digits : Hex
unfolding encode_with digit value join decode
digits = record { encode = encode_with 97; encode_upper = encode_with 65; decode = decode }

value-digit : (a v : ℕ) → (a ≡ 97) → value (digit a v) ≡ some (v % 16)
unfolding value digit
value-digit a v e = ground arith

value-digit_upper : (a v : ℕ) → (a ≡ 65) → value (digit a v) ≡ some (v % 16)
unfolding value digit
value-digit_upper a v e = ground arith

byte_split : (b : ℕ) → IsByte b → (b / 16 % 16) * 16 + b % 16 ≡ b
byte_split b h = omega arith

decode-encode_lower : (bs : List ℕ) → All IsByte bs → decode (encode_with 97 bs) ≡ some bs
unfolding decode encode_with join
decode-encode_lower [] h = refl
decode-encode_lower (b ∷ bs) (h, hs) = ground (
  arith,
  value-digit 97 (b / 16) refl,
  value-digit 97 b refl,
  decode-encode_lower bs hs,
  byte_split b h,
)

decode-encode_upper : (bs : List ℕ) → All IsByte bs → decode (encode_with 65 bs) ≡ some bs
unfolding decode encode_with join
decode-encode_upper [] h = refl
decode-encode_upper (b ∷ bs) (h, hs) = ground (
  arith,
  value-digit_upper 65 (b / 16) refl,
  value-digit_upper 65 b refl,
  decode-encode_upper bs hs,
  byte_split b h,
)

length-encode_with : (a : ℕ) (bs : List ℕ) → length (encode_with a bs) ≡ 2 * length bs
unfolding encode_with
length-encode_with a [] = refl
length-encode_with a (b ∷ bs) = omega (arith, length-encode_with a bs)

value_small : (c v : ℕ) → value c ≡ some v → v < 16
unfolding value
value_small c v h = ground arith

-- What a decoded pair of digits was made of.
join-eq-some :
    (x y : Option ℕ) (z : Option (List ℕ)) (bs : List ℕ)
    → join x y z ≡ some bs
    → (h : ℕ) × (l : ℕ) × (rest : List ℕ) × (x ≡ some h)
      × (y ≡ some l)
      × (z ≡ some rest)
      × (bs ≡ (h * 16 + l) ∷ rest)
unfolding join
join-eq-some (some h) (some l) (some rest) bs e = (h, l, rest, refl, refl, refl, cc)
join-eq-some (some h) (some l) none bs e = cc
join-eq-some (some h) none z bs e = cc
join-eq-some none y z bs e = cc

length-decode : (s : Text) (bs : List ℕ) → decode s ≡ some bs → length s ≡ 2 * length bs
unfolding decode
length-decode [] bs h = ground arith
length-decode (c ∷ []) bs h = cc
length-decode (c ∷ d ∷ s) bs h =
    let (x, y, rest, _, _, tail, e) = join-eq-some (value c) (value d) (decode s) bs h in
    rw e (omega (arith, length-decode s rest tail))

decode-IsByte : (s : Text) (bs : List ℕ) → decode s ≡ some bs → All IsByte bs
unfolding decode
decode-IsByte [] bs h = let e : [] ≡ bs = cc in subst (All IsByte) e tt
decode-IsByte (c ∷ []) bs h = cc
decode-IsByte (c ∷ d ∷ s) bs h =
    let (x, y, rest, high, low, tail, e) = join-eq-some (value c) (value d) (decode s) bs h in
    rw e (omega (arith, value_small c x high, value_small d y low), decode-IsByte s rest tail)

digit_plain :
    (a v : ℕ) → (a ≡ 97) ⊎ (a ≡ 65) → (digit a v < 128) × (is_whitespace (digit a v) ≡ false)
unfolding digit is_whitespace
digit_plain a v e = ground arith

encode_with_ascii :
    (a : ℕ) (bs : List ℕ) → (a ≡ 97) ⊎ (a ≡ 65) → All (λ c. c < 128) (encode_with a bs)
unfolding encode_with
encode_with_ascii a [] e = tt
encode_with_ascii a (b ∷ bs) e =
    ((digit_plain a (b / 16) e).0, ((digit_plain a b e).0, encode_with_ascii a bs e))

encode_with_no_space :
    (a : ℕ) (bs : List ℕ) → (a ≡ 97) ⊎ (a ≡ 65) → any is_whitespace (encode_with a bs) ≡ false
unfolding encode_with
encode_with_no_space a [] e = refl
encode_with_no_space a (b ∷ bs) e =
    ground (arith, digit_plain a (b / 16) e, digit_plain a b e, encode_with_no_space a bs e)

pub digits_laws : HexLaws digits
unfolding digits
digits_laws = record {
  decode-encode = decode-encode_lower;
  decode-encode_upper = decode-encode_upper;
  length-encode = length-encode_with 97;
  length-decode = length-decode;
  decode-IsByte = decode-IsByte;
  encode_ascii = λ bs. encode_with_ascii 97 bs (inl refl);
  encode_no_space = λ bs. encode_with_no_space 97 bs (inl refl);
  encode_upper_no_space = λ bs. encode_with_no_space 65 bs (inr refl);
}
