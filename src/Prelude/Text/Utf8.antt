-- ===== src/Prelude/Text/Utf8.antt =====
-- A decoder that undoes `as_bytes`, for concrete runs: it does not look for ill-formed sequences.
use Prim.Native.Nat.{ℕ, zero, suc, ◌+◌, ◌-◌, ◌*◌, ◌/◌, ◌%◌, ◌<◌}
use mathlib.Core.Path.{◌≡◌, refl, ap, ◌∙◌}
use mathlib.Core.Logic.{inl, inr}
use mathlib.Core.Bool.{true, false}
use mathlib.Core.Option.{Option, none, some}
use mathlib.Core.List.{List, [], ◌∷◌, ◌++◌}
use native.Mathlib.Omega.{arith}
use meta_text.Prelude.Tests.{ltb, if◌then◌else◌, Bool-cases}
use meta_text.Prelude.Text.{Text, as_bytes, utf8_of}

abbrev with_char : ℕ → Option Text → Option Text
with_char c none = none
with_char c (some s) = some (c ∷ s)

-- the bits of a character so far, and how many bytes it has still to come
decode : ℕ → ℕ → List ℕ → Option Text
decode acc zero [] = some []
decode acc (suc k) [] = none
decode acc zero (b ∷ bs) =
    let ascii = decode 0 0 bs in
    let two = decode (b - 0xc0) 1 bs in
    let three = decode (b - 0xe0) 2 bs in
    let four = decode (b - 0xf0) 3 bs in
    if ltb b 0x80
    then with_char b ascii
    else if ltb b 0xe0
    then two
    else if ltb b 0xf0
    then three
    else four
decode acc (suc zero) (b ∷ bs) = with_char (acc * 64 + (b - 0x80)) (decode 0 0 bs)
decode acc (suc (suc k)) (b ∷ bs) = decode (acc * 64 + (b - 0x80)) (suc k) bs

pub from_utf8 : List ℕ → Option Text
unfolding decode
from_utf8 bytes = decode 0 0 bytes

lead_two : (x : ℕ) (bs : List ℕ) → x < 32 → decode 0 0 ((0xc0 + x) ∷ bs) ≡ decode x 1 bs
unfolding decode
lead_two x bs h =
    let is : 0xc0 + x - 0xc0 ≡ x = omega arith in
    let low : ltb (0xc0 + x) 0x80 ≡ false = ground arith in
    let high : ltb (0xc0 + x) 0xe0 ≡ true = ground arith in rw (decode, low, high, is) refl

lead_three : (x : ℕ) (bs : List ℕ) → x < 16 → decode 0 0 ((0xe0 + x) ∷ bs) ≡ decode x 2 bs
unfolding decode
lead_three x bs h =
    let is : 0xe0 + x - 0xe0 ≡ x = omega arith in
    let low : ltb (0xe0 + x) 0x80 ≡ false = ground arith in
    let mid : ltb (0xe0 + x) 0xe0 ≡ false = ground arith in
    let high : ltb (0xe0 + x) 0xf0 ≡ true = ground arith in rw (decode, low, mid, high, is) refl

lead_four : (x : ℕ) (bs : List ℕ) → decode 0 0 ((0xf0 + x) ∷ bs) ≡ decode x 3 bs
unfolding decode
lead_four x bs =
    let is : 0xf0 + x - 0xf0 ≡ x = omega arith in
    let low : ltb (0xf0 + x) 0x80 ≡ false = ground arith in
    let mid : ltb (0xf0 + x) 0xe0 ≡ false = ground arith in
    let high : ltb (0xf0 + x) 0xf0 ≡ false = ground arith in rw (decode, low, mid, high, is) refl

next_byte :
    (acc k x : ℕ) (bs : List ℕ)
    → decode acc (suc (suc k)) ((0x80 + x) ∷ bs) ≡ decode (acc * 64 + x) (suc k) bs
unfolding decode
next_byte acc k x bs = let is : 0x80 + x - 0x80 ≡ x = omega arith in rw is refl

last_byte :
    (acc x : ℕ) (bs : List ℕ)
    → decode acc 1 ((0x80 + x) ∷ bs) ≡ with_char (acc * 64 + x) (decode 0 0 bs)
unfolding decode
last_byte acc x bs =
    let is : 0x80 + x - 0x80 ≡ x = omega arith in
    ap (λ y. with_char (acc * 64 + y) (decode 0 0 bs)) is

ascii_byte :
    (c : ℕ) (bs : List ℕ) → ltb c 0x80 ≡ true → decode 0 0 (c ∷ bs) ≡ with_char c (decode 0 0 bs)
unfolding decode
ascii_byte c bs h = rw (decode, h) refl

decode-utf8_of : (c : ℕ) (bs : List ℕ) → decode 0 0 (utf8_of c ++ bs) ≡ with_char c (decode 0 0 bs)
unfolding utf8_of
decode-utf8_of c bs = elim (Bool-cases (ltb c 0x80)) [
  | inl one ↦ rw (utf8_of, one) (ascii_byte c bs one)
  | inr h1 ↦ elim (Bool-cases (ltb c 0x800)) [
    | inl two ↦
        let is : c / 64 * 64 + c % 64 ≡ c = omega arith in
        rw (utf8_of, h1, two)
          (lead_two (c / 64) _ (ground arith)
            ∙ last_byte (c / 64) (c % 64) bs
            ∙ ap (λ x. with_char x (decode 0 0 bs)) is)
    | inr h2 ↦ elim (Bool-cases (ltb c 0x10000)) [
      | inl three ↦
          let is : (c / 4096 * 64 + c / 64 % 64) * 64 + c % 64 ≡ c = omega arith in
          rw (utf8_of, h1, h2, three)
            (lead_three (c / 4096) _ (ground arith)
              ∙ next_byte (c / 4096) 0 (c / 64 % 64) _
              ∙ last_byte (c / 4096 * 64 + c / 64 % 64) (c % 64) bs
              ∙ ap (λ x. with_char x (decode 0 0 bs)) is)
      | inr h3 ↦
          let is : ((c / 262144 * 64 + c / 4096 % 64) * 64 + c / 64 % 64) * 64 + c % 64 ≡ c =
            omega arith in
          rw (utf8_of, h1, h2, h3)
            (lead_four (c / 262144) _
              ∙ next_byte (c / 262144) 1 (c / 4096 % 64) _
              ∙ next_byte (c / 262144 * 64 + c / 4096 % 64) 0 (c / 64 % 64) _
              ∙ last_byte ((c / 262144 * 64 + c / 4096 % 64) * 64 + c / 64 % 64) (c % 64) bs
              ∙ ap (λ x. with_char x (decode 0 0 bs)) is)
    ]
  ]
]

pub from_utf8-as_bytes : (s : Text) → from_utf8 (as_bytes s) ≡ some s
unfolding from_utf8 as_bytes decode
from_utf8-as_bytes [] = refl
from_utf8-as_bytes (c ∷ s) = decode-utf8_of c (as_bytes s) ∙ ap (with_char c) (from_utf8-as_bytes s)
