-- ===== src/Tox/Store/Numbers.antt =====
-- The sorted friend numbers, which the snapshot of the outbox goes through.
use meta_text.Prelude.{ℕ, ◌≡◌, refl, ◌∙◌, Bool, false, ◌||◌, List, [], ◌∷◌, none, any, ◌==◌, arith}
use meta_text.Prelude.Assoc.{lookup, number_key}
use meta_text.Prelude.Assoc.Distinct.{Distinct}
use meta_text.Tox.State.{ToxOutbox, sort_numbers, insert_number, keys}
use meta_text.Tox.Outbox.Queues.{queue_of}

abbrev pub mem : ℕ → List ℕ → Bool
mem j ns = any (λ n. n == j) ns

abbrev pub AllNew : List ℕ → Type 0
AllNew [] = Unit
AllNew (n ∷ ns) = (mem n ns ≡ false) × AllNew ns

mem-insert_number : (j n : ℕ) (ns : List ℕ) → mem j (insert_number n ns) ≡ (n == j) || mem j ns
unfolding insert_number
mem-insert_number j n [] = ground arith
mem-insert_number j n (m ∷ ns) = ground (arith, mem-insert_number j n ns)

insert_number-AllNew :
    (n : ℕ) (ns : List ℕ) → mem n ns ≡ false → AllNew ns → AllNew (insert_number n ns)
unfolding insert_number
insert_number-AllNew n [] fresh d = (refl, tt)
insert_number-AllNew n (m ∷ ns) fresh (e, d) =
    ground (arith, fresh, e, mem-insert_number m n ns, insert_number-AllNew n ns)

pub mem-sort_numbers : (j : ℕ) (ns : List ℕ) → mem j (sort_numbers ns) ≡ mem j ns
unfolding sort_numbers
mem-sort_numbers j [] = refl
mem-sort_numbers j (n ∷ ns) =
    ground (arith, mem-insert_number j n (sort_numbers ns), mem-sort_numbers j ns)

pub sort_numbers-AllNew : (ns : List ℕ) → AllNew ns → AllNew (sort_numbers ns)
unfolding sort_numbers
sort_numbers-AllNew [] d = tt
sort_numbers-AllNew (n ∷ ns) (e, d) =
    insert_number-AllNew n (sort_numbers ns) (mem-sort_numbers n ns ∙ e) (sort_numbers-AllNew ns d)

mem-keys : (j : ℕ) (outbox : ToxOutbox) → lookup j outbox ≡ none → mem j (keys outbox) ≡ false
unfolding lookup
mem-keys j [] e = refl
mem-keys j ((n, q) ∷ outbox) e = ground (arith, e, mem-keys j outbox)

pub absent_key : (j : ℕ) (outbox : ToxOutbox) → mem j (keys outbox) ≡ false → queue_of j outbox ≡ []
unfolding lookup
absent_key j [] e = refl
absent_key j ((n, q) ∷ outbox) e = ground (arith, e, absent_key j outbox)

pub keys-AllNew : (outbox : ToxOutbox) → Distinct outbox → AllNew (keys outbox)
keys-AllNew [] d = tt
keys-AllNew ((n, q) ∷ outbox) (fresh, d) = (mem-keys n outbox fresh, keys-AllNew outbox d)
