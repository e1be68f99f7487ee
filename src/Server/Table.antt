-- ===== src/Server/Table.antt =====
-- The table of client addresses in crates/meta-text-core/src/ipc/server.rs.
use meta_text.Prelude.{
  ℕ, ◌-◌, ◌≤◌, ◌<◌, ◌≡◌, refl, ◌∙◌, false, inl, inr, List, [], ◌∷◌, none, some, length, Bool-cases,
  Option-cases, ltb, ◌==◌, if◌then◌else◌, arith,
}
use meta_text.Prelude.Assoc.{Key, lookup, insert, remove, lookup-insert, length-insert}
use meta_text.Prelude.Assoc.Distinct.{Distinct, insert-Distinct, remove-Distinct}
use meta_text.Server.{
  Float, AddressBudget, PeerBudgets, acquire, with_limits, retain_seen, sweep, oldest, evict_oldest,
  is_tracked, make_room, budget_of, charge, try_acquire,
}

module _ {K : Type 0} (float : Float) ⦃key : Key K⦄ where
  -- `retain` keeps what it keeps, and forgets the rest.
  lookup-retain_seen :
      (ttl now : ℕ) (j : K) (m : List (K × AddressBudget float))
      → Distinct m
      → lookup j (retain_seen float ttl now m) ≡ (elim (lookup j m) [
        | none ↦ none
        | some budget ↦ if ltb (now - budget.last_seen) ttl then some budget else none
      ])
  unfolding retain_seen lookup
  lookup-retain_seen ttl now j [] d = refl
  lookup-retain_seen ttl now j ((i, budget) ∷ m) (fresh, d) =
      ground (arith, key.beq_iff i j, lookup-retain_seen ttl now j m d)

  retain_seen-Distinct :
      (ttl now : ℕ) (m : List (K × AddressBudget float))
      → Distinct m
      → Distinct (retain_seen float ttl now m)
  unfolding retain_seen
  retain_seen-Distinct ttl now [] d = tt
  retain_seen-Distinct ttl now ((i, budget) ∷ m) (fresh, d) =
      ground (arith, lookup-retain_seen ttl now i m d, retain_seen-Distinct ttl now m d)

  length-retain_seen :
      (ttl now : ℕ) (m : List (K × AddressBudget float))
      → length (retain_seen float ttl now m) ≤ length m
  unfolding retain_seen
  length-retain_seen ttl now [] = omega arith
  length-retain_seen ttl now ((i, budget) ∷ m) = ground (arith, length-retain_seen ttl now m)

  length-remove : (k : K) (m : List (K × AddressBudget float)) → length (remove k m) ≤ length m
  unfolding remove
  length-remove k [] = omega arith
  length-remove k ((j, w) ∷ m) = ground (arith, length-remove k m)

  -- The eviction finds an entry that it takes out.
  eviction_shortens :
      (k : K) (seen : ℕ) (m : List (K × AddressBudget float))
      → oldest float m ≡ some (k, seen)
      → length (remove k m) < length m
  unfolding remove oldest
  eviction_shortens k seen [] e = cc
  eviction_shortens k seen ((j, w) ∷ m) e = elim (Option-cases (oldest float m)) [
    | inl none_left ↦ ground (arith, key.beq_iff j k, length-remove k m)
    | inr ((other, last), found) ↦
        ground (arith, key.beq_iff j k, length-remove k m, eviction_shortens other last m found)
  ]

  length-oldest : (m : List (K × AddressBudget float)) → oldest float m ≡ none → length m ≡ 0
  unfolding oldest
  length-oldest [] e = refl
  length-oldest ((j, w) ∷ m) e = elim (Option-cases (oldest float m)) [
    | inl none_left ↦ ground arith
    | inr ((other, last), found) ↦ ground arith
  ]

  -- One budget for each address, and no more than the capacity of them.
  abbrev pub IsTable : PeerBudgets K float → Type 0
  IsTable s = Distinct s.entries × (1 ≤ s.capacity) × (length s.entries ≤ s.capacity)

  sweep-IsTable : (now : ℕ) (s : PeerBudgets K float) → IsTable s → IsTable (sweep float now s)
  unfolding sweep
  sweep-IsTable now s (d, positive, within) = (
    retain_seen-Distinct s.ttl now s.entries d,
    positive,
    omega (arith, length-retain_seen s.ttl now s.entries),
  )

  evict_oldest-IsTable :
      (s : PeerBudgets K float)
      → IsTable s
      → s.capacity ≤ length s.entries
      → IsTable (evict_oldest float s) × (length (evict_oldest float s).entries < s.capacity)
  unfolding evict_oldest
  evict_oldest-IsTable s (d, positive, within) full = elim (Option-cases (oldest float s.entries)) [
    | inl e ↦ absurd (omega (arith, length-oldest s.entries e))
    | inr ((other, last), e) ↦
        let shorter = eviction_shortens other last s.entries e in
        rw (evict_oldest, e)
          (
            (remove-Distinct other s.entries d, positive, omega (arith, shorter)),
            omega (arith, shorter),
          )
  ]

  -- Room is made for an address that is not in the table.
  make_room-IsTable :
      (peer : K) (s : PeerBudgets K float) → IsTable s → IsTable (make_room float peer s)
  unfolding make_room
  make_room-IsTable peer s table = ground (arith, table, evict_oldest-IsTable s table)

  make_room_fits :
      (peer : K) (s : PeerBudgets K float)
      → IsTable s
      → lookup peer (make_room float peer s).entries ≡ none
      → length (make_room float peer s).entries < s.capacity
  unfolding make_room is_tracked
  make_room_fits peer s table missing = ground (arith, table, missing, evict_oldest-IsTable s table)

  insert-Fits :
      (peer : K) (budget : AddressBudget float) (m : List (K × AddressBudget float)) (capacity : ℕ)
      → length m ≤ capacity
      → ((lookup peer m ≡ none) → length m < capacity)
      → length (insert peer budget m) ≤ capacity
  insert-Fits peer budget m capacity within room = elim (Option-cases (lookup peer m)) [
    | inl e ↦ let grown = length-insert peer budget m in ground (arith, grown, room e, e)
    | inr (old, e) ↦ let same = length-insert peer budget m in ground (arith, same, within, e)
  ]

  charge-IsTable :
      (peer : K) (now clock : ℕ) (s : PeerBudgets K float)
      → IsTable s
      → ((lookup peer s.entries ≡ none) → length s.entries < s.capacity)
      → IsTable (charge float peer now clock s).1
  unfolding charge
  charge-IsTable peer now clock s (d, positive, within) room = (
    insert-Distinct peer _ s.entries d,
    positive,
    insert-Fits peer _ s.entries s.capacity within room,
  )

  make_room_capacity :
      (peer : K) (s : PeerBudgets K float) → (make_room float peer s).capacity ≡ s.capacity
  unfolding make_room evict_oldest
  make_room_capacity peer s = ground arith

  try_acquire-IsTable :
      (peer : K) (now clock : ℕ) (s : PeerBudgets K float)
      → IsTable s
      → IsTable (try_acquire float peer now clock s).1
        × ((try_acquire float peer now clock s).1.capacity ≡ s.capacity)
  unfolding try_acquire charge make_room sweep
  try_acquire-IsTable peer now clock s table =
      let swept = sweep-IsTable now s table in
      let room = make_room_fits peer (sweep float now s) swept in
      let capacity = make_room_capacity peer (sweep float now s) in
      elim (Bool-cases (s.rate == 0)) [
        | inl e ↦ rw (try_acquire, e) (table, refl)
        | inr e ↦
            rw (try_acquire, e)
              (
                charge-IsTable peer now clock (make_room float peer (sweep float now s))
                    (make_room-IsTable peer (sweep float now s) swept)
                    (λ missing. rw capacity (room missing)),
                capacity,
              )
      ]

  charge_known :
      (peer : K) (now clock : ℕ) (s : PeerBudgets K float) (budget : AddressBudget float)
      → lookup peer s.entries ≡ some budget
      → ((charge float peer now clock s).0 ≡ (acquire float now budget.bucket).0)
        × (lookup peer (charge float peer now clock s).1.entries
            ≡ some (record { bucket = (acquire float now budget.bucket).1; last_seen = now }))
  unfolding charge budget_of
  charge_known peer now clock s budget known =
      let spent : AddressBudget float = record {
        bucket = (acquire float now budget.bucket).1;
        last_seen = now;
      } in
      rw (charge, budget_of, known)
        (refl, lookup-insert peer peer spent s.entries ∙ rw ((key.beq_iff peer peer).1 refl) refl)

  lookup-sweep_seen :
      (peer : K) (now : ℕ) (s : PeerBudgets K float) (budget : AddressBudget float)
      → Distinct s.entries
      → lookup peer s.entries ≡ some budget
      → now - budget.last_seen < s.ttl
      → lookup peer (sweep float now s).entries ≡ some budget
  unfolding sweep
  lookup-sweep_seen peer now s budget d known recent =
      ground (arith, lookup-retain_seen s.ttl now peer s.entries d)

  make_room_known :
      (peer : K) (s : PeerBudgets K float) (budget : AddressBudget float)
      → lookup peer s.entries ≡ some budget
      → make_room float peer s ≡ s
  unfolding make_room is_tracked
  make_room_known peer s budget known = rw (make_room, is_tracked, known) refl

  -- A client whose address is known, and was seen within the time that the table keeps an idle one, is served where
  -- the bucket it left serves it, and leaves that bucket behind: to connect again gives no new allowance.
  pub try_acquire_again :
      (peer : K) (now clock : ℕ) (s : PeerBudgets K float) (budget : AddressBudget float)
      → 1 ≤ s.rate
      → Distinct s.entries
      → lookup peer s.entries ≡ some budget
      → now - budget.last_seen < s.ttl
      → ((try_acquire float peer now clock s).0 ≡ (acquire float now budget.bucket).0)
        × (lookup peer (try_acquire float peer now clock s).1.entries
            ≡ some (record { bucket = (acquire float now budget.bucket).1; last_seen = now }))
  unfolding try_acquire
  try_acquire_again peer now clock s budget limited d known recent =
      let kept : lookup peer (sweep float now s).entries ≡ some budget =
        lookup-sweep_seen peer now s budget d known recent in
      let unmoved = make_room_known peer (sweep float now s) budget kept in
      let e : (s.rate == 0) ≡ false = ground arith in
      rw (try_acquire, e, unmoved) (charge_known peer now clock (sweep float now s) budget kept)

-- Requests of clients, the first one first: the address, the time of the request, and the time that a new bucket
-- would read.
unfoldable pub serve_all :
    {K : Type 0} (float : Float) ⦃key : Key K⦄
    → List (K × ℕ × ℕ)
    → PeerBudgets K float
    → PeerBudgets K float
serve_all float [] s = s
serve_all float ((peer, now, clock) ∷ requests) s =
    serve_all float requests (try_acquire float peer now clock s).1

module _ {K : Type 0} (float : Float) ⦃key : Key K⦄ where
  serve_all-kept :
      (requests : List (K × ℕ × ℕ)) (s : PeerBudgets K float)
      → IsTable float s
      → IsTable float (serve_all float requests s)
        × ((serve_all float requests s).capacity ≡ s.capacity)
  unfolding serve_all
  serve_all-kept [] s table = (table, refl)
  serve_all-kept ((peer, now, clock) ∷ requests) s table =
      let (next, same) = try_acquire-IsTable float peer now clock s table in
      let (last, all) = serve_all-kept requests (try_acquire float peer now clock s).1 next in
      (last, all ∙ same)

  -- Whatever clients send requests, and at whatever times, the table holds one budget for each address, and never
  -- more of them than the capacity it was made with, 1 where that is 0.
  pub serve_all-IsTable :
      (rate burst ttl capacity : ℕ) (requests : List (K × ℕ × ℕ))
      → IsTable float (serve_all float requests (with_limits float rate burst ttl capacity))
        × (length (serve_all float requests (with_limits float rate burst ttl capacity)).entries
            ≤ (if capacity == 0 then 1 else capacity))
  unfolding with_limits
  serve_all-IsTable rate burst ttl capacity requests =
      let start : PeerBudgets K float = with_limits float rate burst ttl capacity in
      let positive : 1 ≤ start.capacity = ground arith in
      let (table, same) = serve_all-kept requests start (tt, positive, omega arith) in
      (table, omega (arith, same, table.2))
