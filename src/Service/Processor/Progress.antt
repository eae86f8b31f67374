-- ===== src/Service/Processor/Progress.antt =====
-- service/src/state_manager.rs: that the thread comes to publish what was sent.
use meritrank_rust.Prelude.{
  ℕ, ◌+◌, ◌≤◌, ◌≡◌, refl, sym, ap, subst, ◌∙◌, List, [], ◌∷◌, ◌++◌, Bool, arith, length,
}
use meritrank_rust.Service.Processor.{
  Copy, copy_a, copy_b, other, receive, take_more, lock_drain, Side, Processor, side, with_side,
  new, Reach, publish, published, receive_op, take_op, take_none, publish_back, here, next,
}
use meritrank_rust.Service.Processor.Copies.{Replays, Replays-append, Reach-IsSound, IsReplayed-at}

other-other : (c : Copy) → other (other c) ≡ c
other-other copy_a = refl
other-other copy_b = refl

module _ {G Op : Type 0} (apply_op : G → Op → G → Type 0) (queue_len min_ops : ℕ) where
  side-put :
      (p : Processor G Op) (c : Copy) (s : Side G Op) → side G Op (with_side G Op p c s) c ≡ s
  side-put p copy_a s = refl
  side-put p copy_b s = refl

  -- What the thread has come to: it has applied `ops` to the back copy of `p`.
  record IsTaken (p : Processor G Op) (ops : List Op) (count : ℕ) (q : Processor G Op)
      : Type 0 where
    waits : q.phase ≡ receive count
    content : Replays apply_op (side G Op p p.back).content ops (side G Op q q.back).content
    sent : (side G Op q q.back).sent ≡ (side G Op p p.back).sent

  module _ (returns : (g : G) (op : Op) → (h : G) × apply_op g op h) (overlap : Bool)
      (start : Processor G Op) where
    take_all :
        (ops : List Op) (n : ℕ) (p : Processor G Op)
        → Reach G Op apply_op queue_len min_ops overlap start p
        → p.phase ≡ take_more n
        → (side G Op p p.back).queue ≡ ops
        → (q : Processor G Op) × Reach G Op apply_op queue_len min_ops overlap start q
          × IsTaken p ops (n + length ops) q
    take_all [] n p r at e = (
      _,
      next r (take_none p n at e),
      record { waits = ap receive (omega arith); content = refl; sent = refl },
    )
    take_all (op ∷ ops) n p r at e =
        let (g, step) = returns (side G Op p p.back).content op in
        let put = side-put p p.back _ in
        let rest =
          take_all ops (n + 1) _ (next r (take_op p n op ops g at e step)) refl
            (ap (λ s. s.queue) put) in
        let t = rest.2 in
        (
          rest.0,
          rest.1,
          record {
            waits = t.waits ∙ ap receive (omega arith);
            content = (
              g,
              step,
              subst (λ s. Replays apply_op s.content ops (side G Op rest.0 rest.0.back).content) put
                  t.content,
            );
            sent = t.sent ∙ ap (λ s. s.sent) put;
          },
        )

    -- The thread is in `receive 0` and finds enough operations: it applies them all and publishes.
    take_enough :
        (op : Op) (ops : List Op) (p : Processor G Op)
        → Reach G Op apply_op queue_len min_ops overlap start p
        → p.phase ≡ receive 0
        → (side G Op p p.back).queue ≡ op ∷ ops
        → 1 ≤ min_ops
        → min_ops ≤ length (op ∷ ops)
        → (q : Processor G Op) × Reach G Op apply_op queue_len min_ops overlap start q
          × Replays apply_op (side G Op p p.back).content (op ∷ ops) (published G Op q)
          × ((side G Op q (other q.back)).sent ≡ (side G Op p p.back).sent)
    take_enough op ops p r at e low high =
        let (g, step) = returns (side G Op p p.back).content op in
        let put = side-put p p.back _ in
        let rest =
          take_all ops 1 _ (next r (receive_op p 0 op ops g at (omega arith) e step)) refl
            (ap (λ s. s.queue) put) in
        let t = rest.2 in
        let q = publish G Op apply_op queue_len min_ops lock_drain rest.0 in
        (
          q,
          next rest.1 (publish_back rest.0 (1 + length ops) t.waits (omega arith)),
          (
            g,
            step,
            subst (λ c. Replays apply_op g ops (side G Op rest.0 c).content)
                (sym (other-other rest.0.back))
                (subst (λ s. Replays apply_op s.content ops (side G Op rest.0 rest.0.back).content)
                  put t.content),
          ),
          ap (λ c. (side G Op rest.0 c).sent) (other-other rest.0.back)
              ∙ t.sent
              ∙ ap (λ s. s.sent) put,
        )

  -- Where `apply_op` has a result for every graph and operation: from a reached state in which the
  -- thread waits with nothing applied yet, and in which the channel of the copy behind holds at
  -- least one operation and as many as must be applied before an exchange, of which there is at
  -- least one, steps lead to a state in which the published graph is one that all operations sent
  -- to that copy may make of the initial one, applied in order.
  pub publishes :
      (initial : G)
      → ((g : G) (op : Op) → (h : G) × apply_op g op h)
      → {overlap : Bool} (p : Processor G Op) (op : Op) (ops : List Op)
      → Reach G Op apply_op queue_len min_ops overlap (new G Op initial) p
      → p.phase ≡ receive 0
      → (side G Op p p.back).queue ≡ op ∷ ops
      → 1 ≤ min_ops
      → min_ops ≤ length (op ∷ ops)
      → (q : Processor G Op) × Reach G Op apply_op queue_len min_ops overlap p q
        × Replays apply_op initial (side G Op p p.back).sent (published G Op q)
        × ((side G Op q (other q.back)).sent ≡ (side G Op p p.back).sent)
  publishes initial returns {overlap} p op ops r at e low high =
      let took = take_enough returns overlap p op ops p here at e low high in
      let done =
        IsReplayed-at apply_op queue_len min_ops initial p p.back
          (Reach-IsSound apply_op queue_len min_ops initial r) in
      (
        took.0,
        took.1,
        subst (λ xs. Replays apply_op initial xs (published G Op took.0))
            (sym (done.split ∙ ap (λ q. done.done ++ q) e))
            (Replays-append apply_op initial _ _ done.done (op ∷ ops) done.result took.2),
        took.3,
      )
