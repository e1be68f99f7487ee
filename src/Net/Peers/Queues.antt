-- ===== src/Net/Peers/Queues.antt =====
-- Bounded queues that compute, for concrete runs: a table of the frames that wait in each.
use meta_text.Prelude.{ℕ, List, [], ◌∷◌, ◌++◌, Option, none, some, length, leb, if◌then◌else◌}
use meta_text.Prelude.Assoc.{lookup, insert, number_key}
use meta_text.Net.Peers.{Channels, TrySend, accepted, full, closed}

-- the capacity, and the frames that wait
abbrev pub Queued : Type 0
Queued = List (ℕ × (ℕ × List (List ℕ)))

abbrev offered : ℕ → List ℕ → Queued → Option (ℕ × List (List ℕ)) → TrySend × Queued
offered sender frame c none = (closed, c)
offered sender frame c (some (capacity, frames)) =
    if leb capacity (length frames)
    then (full, c)
    else (accepted, insert sender (capacity, frames ++ frame ∷ []) c)

unfoldable pub offer : ℕ → List ℕ → Queued → TrySend × Queued
unfolding lookup insert
offer sender frame c = offered sender frame c (lookup sender c)

unfoldable pub opened : ℕ → Queued → ℕ × Queued
unfolding insert
opened capacity c = (length c, insert (length c) (capacity, []) c)

abbrev pub queues : Channels
queues = record { Store = Queued; try_send = offer; channel = opened }
