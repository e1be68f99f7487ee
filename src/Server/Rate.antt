-- ===== src/Server/Rate.antt =====
-- How many requests a token bucket of crates/meta-text-core/src/ipc/server.rs serves, for any arithmetic of
-- floating point numbers whose rounding is bounded.
use meta_text.Prelude.{
  ℕ, ◌+◌, ◌-◌, ◌*◌, ◌^◌, ◌≤◌, ◌<◌, ◌≡◌, refl, sym, ap, ◌∙◌, Bool, true, inl, inr, List, [], ◌∷◌,
  length, Bool-cases, ◌==◌, if◌then◌else◌, arith,
}
use native.Mathlib.Nat.{mul-add, add-mul}
use meta_text.Server.{Float, TokenBucket, bucket, refill, acquire}

-- What IEEE 754 gives for counts below 2^32: a value is `measure` parts, of which a token has
-- `scale * 10 ^ 9`, so that a nanosecond at the rate 1 is worth `scale` parts; a conversion is exact, a minimum
-- is one of its arguments, and the sums and the difference are off by `slack` at most.
pub record FloatLaws (float : Float) : Type 0 where
  pub measure : float.F64 → ℕ
  pub scale : ℕ
  pub slack : ℕ
  pub slack_le : slack ≤ scale * 10 ^ 9
  pub measure-from : (n : ℕ) → n < 2 ^ 32 → measure (float.from n) ≡ n * (scale * 10 ^ 9)
  pub min_right :
      (x : float.F64) (burst : ℕ)
      → measure (float.min x (float.from burst)) ≤ measure (float.from burst)
  pub refill_rounds :
      (rate burst elapsed : ℕ) (tokens : float.F64)
      → rate < 2 ^ 32
      → burst < 2 ^ 32
      → measure tokens ≤ measure (float.from burst)
      → measure (
          float.min
            (float.mul_add (float.as_secs_f64 elapsed) (float.from rate) tokens)
            (float.from burst))
        ≤ measure tokens + rate * scale * elapsed + slack
  pub minus_one_rounds :
      (burst : ℕ) (tokens : float.F64)
      → burst < 2 ^ 32
      → measure tokens ≤ measure (float.from burst)
      → float.at_least_one tokens ≡ true
      → measure (float.minus_one tokens) + scale * 10 ^ 9 ≤ measure tokens + slack

-- Requests at the times of a list, the first one first: how many are served.
unfoldable pub acquire_all : (float : Float) → List ℕ → TokenBucket float → ℕ × TokenBucket float
acquire_all float [] b = (0, b)
acquire_all float (now ∷ times) b =
    let (served, b') = acquire float now b in
    let (count, b'') = acquire_all float times b' in (if served then count + 1 else count, b'')

-- The times do not go back.
abbrev pub IsOrdered : ℕ → List ℕ → Type 0
IsOrdered from [] = Unit
IsOrdered from (now ∷ times) = (from ≤ now) × IsOrdered now times

abbrev pub end_of : ℕ → List ℕ → ℕ
end_of from [] = from
end_of from (now ∷ times) = end_of now times

end_of_le : (from : ℕ) (times : List ℕ) → IsOrdered from times → from ≤ end_of from times
end_of_le from [] ordered = omega arith
end_of_le from (now ∷ times) (le, ordered) = omega (arith, end_of_le now times ordered)

mul_steps : (k a b c : ℕ) → a ≤ b → b ≤ c → k * (b - a) + k * (c - b) ≡ k * (c - a)
mul_steps k a b c h g =
    let steps : (b - a) + (c - b) ≡ c - a = omega arith in
    sym (mul-add k (b - a) (c - b)) ∙ ap (k *◌) steps

module _ (float : Float) (laws : FloatLaws float) where
  open laws use {measure, scale, slack}

  abbrev IsBounded : TokenBucket float → Type 0
  IsBounded b =
      (b.rate < 2 ^ 32) × (b.burst < 2 ^ 32) × (measure b.tokens ≤ measure (float.from b.burst))

  -- What one request costs the bucket, in parts of a token.
  abbrev Spent : ℕ → TokenBucket float → Bool × TokenBucket float → Type 0
  Spent now b (served, b') =
      (measure b'.tokens + (if served then scale * 10 ^ 9 else 0)
        ≤ measure b.tokens + b.rate * scale * (now - b.last) + 2 * slack)
      × (b'.last ≡ now)
      × (b'.rate ≡ b.rate)
      × IsBounded b'

  acquire-Spent :
      (now : ℕ) (b : TokenBucket float)
      → 1 ≤ b.rate
      → IsBounded b
      → Spent now b (acquire float now b)
  unfolding acquire refill
  acquire-Spent now b limited bounded =
      let (r, u, w) = bounded in
      let full = refill float now b in
      let refilled = laws.refill_rounds b.rate b.burst (now - b.last) b.tokens r u w in
      let capped : measure full.tokens ≤ measure (float.from b.burst) = laws.min_right _ b.burst in
      elim (Bool-cases (float.at_least_one full.tokens)) [
        | inl e ↦
            let taken = laws.minus_one_rounds b.burst full.tokens u capped e in
            ground (arith, taken, refilled, capped, laws.slack_le)
        | inr e ↦ ground (arith, refilled, capped)
      ]

  acquire_all_spent :
      (times : List ℕ) (b : TokenBucket float)
      → 1 ≤ b.rate
      → IsBounded b
      → IsOrdered b.last times
      → (acquire_all float times b).0 * (scale * 10 ^ 9)
        ≤ measure b.tokens
          + b.rate * scale * (end_of b.last times - b.last)
          + length times * (2 * slack)
  unfolding acquire_all
  acquire_all_spent [] b limited bounded ordered = omega arith
  acquire_all_spent (now ∷ times) b limited bounded (le, ordered) =
      let (cost, last, rate, bounded') = acquire-Spent now b limited bounded in
      let (served, b') = acquire float now b in
      let rest = acquire_all_spent times b' (omega (arith, rate)) bounded' (rw last ordered) in
      let steps =
        mul_steps (b.rate * scale) b.last now (end_of now times) le (end_of_le now times ordered) in
      let moved : b'.rate * scale * (end_of b'.last times - b'.last)
          ≡ b.rate * scale * (end_of now times - now) =
        rw (last, rate) refl in
      let count = (acquire_all float times b').0 in
      let one_more = add-mul count 1 (scale * 10 ^ 9) in
      let rounds = add-mul (length times) 1 (2 * slack) in
      elim (Bool-cases served) [
        | inl e ↦ ground (arith, cost, rest, moved, steps, one_more, rounds)
        | inr e ↦ ground (arith, cost, rest, moved, steps, rounds)
      ]

  -- A bucket that is new at the time `clock` with a rate other than 0, both numbers below 2^32: of any requests at
  -- times that do not go back, it serves at most the burst (1 where that is 0), plus the rate times the time from
  -- `clock` to the last request, plus what the arithmetic rounds off, twice for each request.
  pub acquire_all_bound :
      (rate burst clock : ℕ) (times : List ℕ)
      → 1 ≤ rate
      → rate < 2 ^ 32
      → burst < 2 ^ 32
      → IsOrdered clock times
      → (acquire_all float times (bucket float rate burst clock)).0 * (scale * 10 ^ 9)
        ≤ (if burst == 0 then 1 else burst) * (scale * 10 ^ 9)
          + rate * scale * (end_of clock times - clock)
          + length times * (2 * slack)
  unfolding bucket
  acquire_all_bound rate burst clock times limited r u ordered =
      let b = bucket float rate burst clock in
      let n = if burst == 0 then 1 else burst in
      let small : n < 2 ^ 32 = ground arith in
      let same : b.burst ≡ n = ground arith in
      let full : measure b.tokens ≡ n * (scale * 10 ^ 9) = rw same (laws.measure-from n small) in
      let bounded : IsBounded b = (r, rw same small, omega arith) in
      omega (arith, full, acquire_all_spent times b limited bounded ordered)
