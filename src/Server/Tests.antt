-- ===== src/Server/Tests.antt =====
-- The budgets of crates/meta-text-core/src/ipc/server.rs on concrete requests, with an arithmetic that is
-- exact: a number is the count of its billionths.
use Prim.Native.Nat.{min}
use native.Mathlib.Nat.{mul_comm}
use meta_text.Prelude.{
  ℕ, ◌+◌, ◌-◌, ◌*◌, ◌/◌, ◌^◌, ◌≤◌, ◌≡◌, refl, true, List, [], ◌∷◌, some, length, leb, arith,
}
use meta_text.Prelude.Assoc.{lookup, number_key}
use meta_text.Server.{Float, AddressBudget, PeerBudgets, acquire, bucket, with_limits, try_acquire}
use meta_text.Server.Rate.{FloatLaws, acquire_all, acquire_all_bound}
use meta_text.Server.Table.{IsTable, serve_all, serve_all-IsTable, try_acquire_again}

-- The factor of a product is a count from a u32.
abbrev exact : Float
exact = record {
  F64 = ℕ;
  from = λ n. n * 10 ^ 9;
  as_secs_f64 = λ n. n;
  mul_add = λ elapsed rate tokens. elapsed * (rate / 10 ^ 9) + tokens;
  min = min;
  at_least_one = leb (10 ^ 9);
  minus_one = λ t. t - 10 ^ 9;
}

exact_min : (x y : ℕ) → min x y ≤ y
exact_min x y = ground arith

whole : (n : ℕ) → n * 10 ^ 9 / 10 ^ 9 ≡ n
whole n = omega arith

exact_refill :
    (rate burst elapsed tokens : ℕ)
    → min (elapsed * (rate * 10 ^ 9 / 10 ^ 9) + tokens) (burst * 10 ^ 9)
      ≤ tokens + rate * 1 * elapsed + 0
exact_refill rate burst elapsed tokens = rw (whole rate) (ground (arith, mul_comm elapsed rate))

exact_minus : (tokens : ℕ) → leb (10 ^ 9) tokens ≡ true → (tokens - 10 ^ 9) + 10 ^ 9 ≤ tokens + 0
exact_minus tokens e = ground arith

abbrev exact_laws : FloatLaws exact
exact_laws = record {
  measure = λ t. t;
  scale = 1;
  slack = 0;
  slack_le = omega arith;
  measure-from = λ n h. omega arith;
  min_right = λ x burst. exact_min x (burst * 10 ^ 9);
  refill_rounds = λ rate burst elapsed tokens r u w. exact_refill rate burst elapsed tokens;
  minus_one_rounds = λ burst tokens u w e. exact_minus tokens e;
}

-- Three requests in one second to a bucket of rate 1 and burst 2.
acquire_all_bound_example :
    (acquire_all exact (0 ∷ 0 ∷ 10 ^ 9 ∷ []) (bucket exact 1 2 0)).0 * (1 * 10 ^ 9)
    ≤ 2 * (1 * 10 ^ 9) + 1 * 1 * (10 ^ 9 - 0) + 3 * (2 * 0)
acquire_all_bound_example =
    acquire_all_bound exact exact_laws 1 2 0 (0 ∷ 0 ∷ 10 ^ 9 ∷ []) (omega arith) (omega arith)
      (omega arith) (omega arith, (omega arith, (omega arith, tt)))

abbrev three_clients : List (ℕ × ℕ × ℕ)
three_clients = (1, 5, 5) ∷ (2, 6, 6) ∷ (3, 7, 8) ∷ []

serve_all-IsTable_example :
    IsTable exact (serve_all exact three_clients (with_limits exact 1 1 600 2))
    × (length (serve_all exact three_clients (with_limits exact 1 1 600 2)).entries ≤ 2)
serve_all-IsTable_example = serve_all-IsTable exact 1 1 600 2 three_clients

abbrev seen_once : AddressBudget exact
seen_once = record { bucket = record { rate = 1; burst = 1; tokens = 0; last = 5 }; last_seen = 5 }

abbrev one_client : PeerBudgets ℕ exact
one_client = record { rate = 1; burst = 1; ttl = 600; capacity = 2; entries = (1, seen_once) ∷ [] }

try_acquire_again_example :
    ((try_acquire exact 1 9 9 one_client).0 ≡ (acquire exact 9 seen_once.bucket).0)
    × (lookup 1 (try_acquire exact 1 9 9 one_client).1.entries
        ≡ some (record { bucket = (acquire exact 9 seen_once.bucket).1; last_seen = 9 }))
unfolding lookup
try_acquire_again_example =
    try_acquire_again exact 1 9 9 one_client seen_once (omega arith) (refl, tt) refl (omega arith)
