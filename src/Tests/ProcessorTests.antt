-- ===== src/Tests/ProcessorTests.antt =====
-- The steps of service/src/state_manager.rs's two copies on numbers, which are added up in a list.
use meritrank_rust.Prelude.{
  ℕ, ◌≡◌, refl, ◌⊎◌, suc, inl, inr, List, [], ◌∷◌, ◌++◌, Bool, true, false, arith,
}
use meritrank_rust.Service.Processor.{
  copy_a, other, take_more, drain, Processor, side, new, enqueue, with_readers, Reach, published,
  send_first, send_second, read_front, receive_op, take_none, publish_back, lock_to_drain, drain_op,
  here, next,
}
use meritrank_rust.Service.Processor.Copies.{Replays, IsSound, Reach-IsSound}
use meritrank_rust.Service.Processor.Readers.{guard_keeps_content}
use meritrank_rust.Service.Processor.Order.{two_senders}
use meritrank_rust.Service.Processor.Progress.{publishes}

-- An operation is put at the end, or at the end with one more: what is left is not determined.
abbrev Appends : List ℕ → ℕ → List ℕ → Type 0
Appends xs x ys = (ys ≡ xs ++ x ∷ []) ⊎ (ys ≡ xs ++ suc x ∷ [])

append_returns : (xs : List ℕ) (x : ℕ) → (ys : List ℕ) × Appends xs x ys
append_returns xs x = (xs ++ x ∷ [], inl refl)

abbrev fresh : Processor (List ℕ) ℕ
fresh = new (List ℕ) ℕ []

abbrev Run : Bool → Processor (List ℕ) ℕ → Type 0
Run overlap p = Reach (List ℕ) ℕ Appends 4 1 overlap fresh p

abbrev once_first : Processor (List ℕ) ℕ
once_first = record fresh { a = enqueue (List ℕ) ℕ 7 fresh.a; pending = 7 ∷ [] }

abbrev once : Processor (List ℕ) ℕ
once = record once_first { b = enqueue (List ℕ) ℕ 7 once_first.b; pending = [] }

-- One operation is sent to both copies.
sent_once : Run false once
sent_once =
    next (next here (send_first _ 7 refl (inr refl) (omega arith)))
      (send_second _ 7 [] [] refl (omega arith))

publishes_example :
    (q : Processor (List ℕ) ℕ) × Reach (List ℕ) ℕ Appends 4 1 false once q
    × Replays Appends [] (7 ∷ []) (published (List ℕ) ℕ q)
    × ((side (List ℕ) ℕ q (other q.back)).sent ≡ 7 ∷ [])
publishes_example =
    publishes Appends 4 1 [] append_returns once 7 [] sent_once refl refl (omega arith)
      (omega arith)

-- Both copies apply it, and the thread exchanges them between.
abbrev applied : Processor (List ℕ) ℕ
applied = record {
  a = record { content = 7 ∷ []; queue = []; readers = 0; sent = 7 ∷ [] };
  b = record { content = 8 ∷ []; queue = []; readers = 0; sent = 7 ∷ [] };
  back = copy_a;
  phase = drain 1;
  pending = [];
  closed = false;
}

applied_both : Run false applied
applied_both =
    next
      (next
        (next
          (next (next sent_once (receive_op _ 0 7 [] (8 ∷ []) refl (omega arith) refl (inr refl)))
            (take_none _ 1 refl refl))
          (publish_back _ 1 refl (omega arith)))
        (lock_to_drain _ refl refl))
      (drain_op _ 0 7 [] (7 ∷ []) refl refl (inl refl))

Reach-IsSound_example : IsSound Appends 4 1 [] applied
Reach-IsSound_example = Reach-IsSound Appends 4 1 [] applied_both

abbrev read : Processor (List ℕ) ℕ
read = record once { a = with_readers (List ℕ) ℕ 1 once.a }

read_once : Run false read
read_once = next sent_once (read_front _)

abbrev received : Processor (List ℕ) ℕ
received = record read {
  b = record { content = 7 ∷ []; queue = []; readers = 0; sent = 7 ∷ [] };
  phase = take_more 1;
}

guard_keeps_content_example : received.a.content ≡ read.a.content
guard_keeps_content_example =
    guard_keeps_content Appends 4 1 [] {overlap = false} {q = received} read_once
      (receive_op read 0 7 [] (7 ∷ []) refl (omega arith) refl (inl refl)) copy_a (λ e. omega arith)

two_senders_example :
    (q : Processor (List ℕ) ℕ) × Run true q
    × (q.pending ≡ [])
    × (q.a.queue ≡ [])
    × (q.b.queue ≡ [])
    × Replays Appends [] (1 ∷ 2 ∷ []) q.a.content
    × Replays Appends [] (2 ∷ 1 ∷ []) q.b.content
two_senders_example =
    two_senders Appends 4 1 [] 1 2 append_returns (omega arith) (omega arith) (omega arith)
