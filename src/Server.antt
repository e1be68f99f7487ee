-- ===== src/Server.antt =====
-- crates/meta-text-core/src/ipc/server.rs: the budget of requests that the core's socket gives each client
-- address. A time is in nanoseconds. The arithmetic of f64 is a parameter, and so is the time that
-- `Instant::now` reads for a new bucket. The hash map of addresses is an association list: where two
-- addresses were last seen at one time, the first one of the list is evicted.
pub mod Rate
pub mod Table
mod Tests
use meta_text.Prelude.{
  ℕ, ◌+◌, ◌-◌, ◌*◌, ◌^◌, ◌≤◌, ◌<◌, ◌≡◌, Bool, not, true, false, ◌&&◌, List, [], ◌∷◌, Option, none,
  some, length, leb, ltb, ◌==◌, if◌then◌else◌,
}
use meta_text.Prelude.Assoc.{Key, lookup, insert, remove}

-- What the bucket uses of f64.
pub record Float : Type 1 where
  pub F64 : Type 0
  -- of a u32
  pub from : ℕ → F64
  -- of a duration
  pub as_secs_f64 : ℕ → F64
  pub mul_add : F64 → F64 → F64 → F64
  pub min : F64 → F64 → F64
  pub at_least_one : F64 → Bool
  pub minus_one : F64 → F64

abbrev pub budget_idle_ttl : ℕ
budget_idle_ttl = 600 * 10 ^ 9

abbrev pub max_tracked_peers : ℕ
max_tracked_peers = 1024

module _ (float : Float) where
  pub record TokenBucket : Type 0 where
    pub rate : ℕ
    pub burst : ℕ
    pub tokens : float.F64
    pub last : ℕ

  pub record AddressBudget : Type 0 where
    pub bucket : TokenBucket
    pub last_seen : ℕ

module _ (float : Float) where
  -- `clock` is what `Instant::now` reads.
  unfoldable pub bucket : ℕ → ℕ → ℕ → TokenBucket float
  bucket rate burst clock =
      let bounded = if rate == 0 then 0 else if burst == 0 then 1 else burst in
      record { rate = rate; burst = bounded; tokens = float.from bounded; last = clock }

  unfoldable pub refill : ℕ → TokenBucket float → TokenBucket float
  refill now b =
      let elapsed = float.as_secs_f64 (now - b.last) in
      record b {
        last = now;
        tokens =
            float.min (float.mul_add elapsed (float.from b.rate) b.tokens) (float.from b.burst);
      }

  unfoldable pub acquire : ℕ → TokenBucket float → Bool × TokenBucket float
  acquire now b =
      if b.rate == 0
      then (true, b)
      else let full = refill now b in
        if float.at_least_one full.tokens
        then (true, record full { tokens = float.minus_one full.tokens })
        else (false, full)

module _ (K : Type 0) (float : Float) where
  pub record PeerBudgets : Type 0 where
    pub rate : ℕ
    pub burst : ℕ
    pub ttl : ℕ
    pub capacity : ℕ
    pub entries : List (K × AddressBudget float)

module _ {K : Type 0} (float : Float) where
  unfoldable pub with_limits : ℕ → ℕ → ℕ → ℕ → PeerBudgets K float
  with_limits rate burst ttl capacity = record {
    rate = rate;
    burst = burst;
    ttl = ttl;
    capacity = if capacity == 0 then 1 else capacity;
    entries = [];
  }

  unfoldable pub default_budgets : ℕ → ℕ → PeerBudgets K float
  default_budgets rate burst = with_limits rate burst budget_idle_ttl max_tracked_peers

  -- `retain` of the addresses that were seen within `ttl`
  unfoldable pub retain_seen :
      ℕ → ℕ → List (K × AddressBudget float) → List (K × AddressBudget float)
  retain_seen ttl now [] = []
  retain_seen ttl now ((peer, budget) ∷ entries) =
      let rest = retain_seen ttl now entries in
      if ltb (now - budget.last_seen) ttl then (peer, budget) ∷ rest else rest

  unfoldable pub sweep : ℕ → PeerBudgets K float → PeerBudgets K float
  sweep now s = record s { entries = retain_seen s.ttl now s.entries }

  -- `min_by_key` of the time an address was last seen
  unfoldable pub oldest : List (K × AddressBudget float) → Option (K × ℕ)
  oldest [] = none
  oldest ((peer, budget) ∷ entries) = elim (oldest entries) [
    | none ↦ some (peer, budget.last_seen)
    | some (other, seen) ↦
        if leb budget.last_seen seen then some (peer, budget.last_seen) else some (other, seen)
  ]

module _ {K : Type 0} (float : Float) ⦃key : Key K⦄ where
  unfoldable pub evict_oldest : PeerBudgets K float → PeerBudgets K float
  evict_oldest s = elim (oldest float s.entries) [
    | none ↦ s
    | some (peer, seen) ↦ record s { entries = remove peer s.entries }
  ]

  unfoldable pub is_tracked : K → PeerBudgets K float → Bool
  is_tracked peer s = elim (lookup peer s.entries) [ none ↦ false | some budget ↦ true ]

  -- room for the address
  unfoldable pub make_room : K → PeerBudgets K float → PeerBudgets K float
  make_room peer s =
      if not (is_tracked peer s) && leb s.capacity (length s.entries) then evict_oldest s else s

  -- `entry(peer).or_insert_with`
  unfoldable pub budget_of : K → ℕ → ℕ → PeerBudgets K float → AddressBudget float
  budget_of peer now clock s = elim (lookup peer s.entries) [
    | none ↦ record { bucket = bucket float s.rate s.burst clock; last_seen = now }
    | some budget ↦ budget
  ]

  -- `now` is the caller's, `clock` the time that a new bucket reads.
  unfoldable pub charge : K → ℕ → ℕ → PeerBudgets K float → Bool × PeerBudgets K float
  charge peer now clock s =
      let budget = budget_of peer now clock s in
      let (served, spent) = acquire float now budget.bucket in
      let seen : AddressBudget float = record { bucket = spent; last_seen = now } in
      (served, record s { entries = insert peer seen s.entries })

  unfoldable pub try_acquire : K → ℕ → ℕ → PeerBudgets K float → Bool × PeerBudgets K float
  try_acquire peer now clock s =
      if s.rate == 0 then (true, s) else charge peer now clock (make_room peer (sweep float now s))
