-- ===== src/Tox/Store/Queues.antt =====
-- The payloads of one friend survive a restart, with their times in milliseconds and without those whose
-- time has passed.
use mathlib.Core.Path.{subst₂}
use meta_text.Prelude.{
  ℕ, ◌+◌, ◌≤◌, ◌<◌, ◌≡◌, refl, sym, ap, ◌∙◌, false, List, [], ◌∷◌, ◌++◌, map, some, length,
  length-append, append_nil, append_assoc, Bool-cases, inl, inr, ◌==◌, leb, if◌then◌else◌, All,
  arith,
}
use meta_text.Prelude.Bytes.{IsByte}
use meta_text.Prelude.Text.{Text}
use meta_text.Prelude.Assoc.{lookup, insert, number_key, text_key}
use meta_text.Hex.{Hex, HexLaws}
use meta_text.Tox.State.{
  QueuedMessage, Queue, stored_message, from_unix_ms, unix_ms, queued_age, tox_outbox_ttl,
  tox_outbox_capacity,
}
use meta_text.Tox.Outbox.{prune_queue}
use meta_text.Tox.Outbox.Queues.{queue_of, queue_of-insert, length-prune_queue}
use meta_text.Tox.Store.{RestoredState, restore_known, restore_message, restore_messages}

-- a payload with its time in whole milliseconds
abbrev pub truncated : QueuedMessage → QueuedMessage
truncated m = record m { queued_at = from_unix_ms (unix_ms m.queued_at) }

-- what a queue is after the restart
abbrev pub restored_queue : ℕ → Queue → Queue
restored_queue now q = prune_queue now (map truncated q)

abbrev pub AreBytes : Queue → Type 0
AreBytes q = All (λ m. All IsByte m.body) q

-- what the loop may have done to the tables: friend n has q more, and nothing was lost
abbrev pub Extended : ℕ → Queue → RestoredState → RestoredState → Type 0
Extended n q restored restored' =
    ((j : ℕ)
      → queue_of j restored'.outbox
        ≡ (if n == j then queue_of n restored.outbox ++ q else queue_of j restored.outbox))
    × (restored'.undeliverable ≡ restored.undeliverable)
    × (restored'.requests ≡ restored.requests)

module _ (hex : Hex) (laws : HexLaws hex) (lower : Text → Text) where
  restore_stored :
      (now n : ℕ) (m : QueuedMessage) (public_key : Text) (by_key : List (Text × ℕ))
      (restored : RestoredState)
      → lookup (lower public_key) by_key ≡ some n
      → All IsByte m.body
      → restore_message hex lower now by_key (stored_message hex public_key m) restored
        ≡ restore_known now (stored_message hex public_key m) n m.body restored
  unfolding restore_message stored_message
  restore_stored now n m public_key by_key restored found bytes =
      let decoded = laws.decode-encode m.body bytes in rw (restore_message, found, decoded) refl

  restore_known-Extended :
      (now n : ℕ) (m : QueuedMessage) (public_key : Text) (restored : RestoredState)
      → length (queue_of n restored.outbox) < tox_outbox_capacity
      → Extended n
          (restored_queue now (m ∷ []))
          restored
          (restore_known now (stored_message hex public_key m) n m.body restored)
  unfolding restore_known stored_message prune_queue
  restore_known-Extended now n m public_key restored free =
      let stored = stored_message hex public_key m in
      let queued_at = from_unix_ms (unix_ms m.queued_at) in
      let old = queue_of n restored.outbox in
      let longer = old ++ truncated m ∷ [] in
      elim (Bool-cases (leb tox_outbox_ttl (queued_age now queued_at))) [
        | inl late ↦
            let counted : RestoredState = record restored { expired = restored.expired + 1 } in
            let same : restore_known now stored n m.body restored ≡ counted =
              rw (restore_known, late) refl in
            let gone : restored_queue now (m ∷ []) ≡ [] = ground (arith, late) in
            subst₂ (λ q r. Extended n q restored r) (sym gone) (sym same)
              (λ j. ground (arith, append_nil old), refl, refl)
        | inr young ↦
            let full : leb tox_outbox_capacity (length old) ≡ false = ground (arith, free) in
            let kept : RestoredState = record restored {
              outbox = insert n longer restored.outbox;
            } in
            let same : restore_known now stored n m.body restored ≡ kept =
              rw (restore_known, young, full) refl in
            let here : restored_queue now (m ∷ []) ≡ truncated m ∷ [] = ground (arith, young) in
            subst₂ (λ q r. Extended n q restored r) (sym here) (sym same)
              (λ j. queue_of-insert n j longer restored.outbox, refl, refl)
      ]

  restored_queue-cons :
      (now : ℕ) (m : QueuedMessage) (q : Queue)
      → restored_queue now (m ∷ q) ≡ restored_queue now (m ∷ []) ++ restored_queue now q
  unfolding prune_queue
  restored_queue-cons now m q = ground arith

  -- one extension after another
  Extended-trans :
      (n : ℕ) (p q : Queue) (a b c : RestoredState)
      → Extended n p a b
      → Extended n q b c
      → Extended n (p ++ q) a c
  Extended-trans n p q a b c (first, none_lost, same) (later, none_lost', same') = (
    λ j. ground (arith, later j, first j, first n, append_assoc (queue_of n a.outbox) p q),
    none_lost' ∙ none_lost,
    same' ∙ same,
  )

  pub restore_queue-Extended :
      (now n : ℕ) (q : Queue) (public_key : Text) (by_key : List (Text × ℕ))
      (restored : RestoredState)
      → lookup (lower public_key) by_key ≡ some n
      → AreBytes q
      → length (queue_of n restored.outbox) + length q ≤ tox_outbox_capacity
      → Extended n
          (restored_queue now q)
          restored
          (restore_messages hex lower now by_key (map (stored_message hex public_key) q) restored)
  unfolding restore_messages prune_queue
  restore_queue-Extended now n [] public_key by_key restored found bytes free =
      (λ j. ground (arith, append_nil (queue_of n restored.outbox)), refl, refl)
  restore_queue-Extended now n (m ∷ q) public_key by_key restored found (first, bytes) free =
      let known = restore_known now (stored_message hex public_key m) n m.body restored in
      let one = restore_known-Extended now n m public_key restored (omega (arith, free)) in
      let same = restore_stored now n m public_key by_key restored found first in
      let short : length (queue_of n known.outbox) + length q ≤ tox_outbox_capacity = ground (
        arith,
        one.0 n,
        free,
        length-append (queue_of n restored.outbox) (restored_queue now (m ∷ [])),
        length-prune_queue now (truncated m ∷ []),
      ) in
      let after : RestoredState → RestoredState =
        restore_messages hex lower now by_key (map (stored_message hex public_key) q) in
      let rest = restore_queue-Extended now n q public_key by_key known found bytes short in
      let both =
        Extended-trans n (restored_queue now (m ∷ [])) (restored_queue now q) restored known
          (after known) one rest in
      subst₂ (λ p r. Extended n p restored r) (sym (restored_queue-cons now m q))
        (ap after (sym same)) both
