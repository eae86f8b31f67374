-- ===== src/Service/Processor/Order.antt =====
-- service/src/state_manager.rs: in which order the two copies get the operations.
use meritrank_rust.Prelude.{
  ℕ, ◌≤◌, ◌≡◌, refl, sym, ap, subst, ◌∙◌, inl, inr, List, [], ◌∷◌, ◌++◌, Bool, true, false, arith,
}
use mathlib.Core.List.{append_assoc, append-nil}
use meritrank_rust.Service.Processor.{
  Copy, copy_a, copy_b, other, Phase, Side, Processor, side, with_side, new, enqueue, with_readers,
  Step, Reach, send_first, send_second, close, read_front, read_back, end_read, receive_op,
  receive_none, take_op, take_none, publish_back, lock_to_drain, drain_op, drained_few,
  drained_many, lock_to_receive, here, next,
}
use meritrank_rust.Service.Processor.Copies.{Replays, false-true, Reach-IsSound, settled}

not-append_cons {ℓ} : {A : Type ℓ} (xs : List A) (y : A) (ys : List A) → ¬ (xs ++ y ∷ ys ≡ [])
not-append_cons [] y ys e = cc
not-append_cons (x ∷ xs) y ys e = cc

cons_single {ℓ} : {A : Type ℓ} (x y : A) (ys : List A) → x ∷ [] ≡ y ∷ ys → ys ≡ []
cons_single x y ys e = cc

module _ {G Op : Type 0} (apply_op : G → Op → G → Type 0) (queue_len min_ops : ℕ)
    (initial : G) where
  -- What the first channel is ahead by is what is pending, which is one operation at most.
  record IsOrdered (p : Processor G Op) : Type 0 where
    ahead : p.a.sent ≡ p.b.sent ++ p.pending
    single : (op : Op) (ops : List Op) → p.pending ≡ op ∷ ops → ops ≡ []

  put-sent :
      (p : Processor G Op) (c d : Copy) (s : Side G Op)
      → s.sent ≡ (side G Op p c).sent
      → (side G Op (with_side G Op p c s) d).sent ≡ (side G Op p d).sent
  put-sent p copy_a copy_a s e = e
  put-sent p copy_a copy_b s e = refl
  put-sent p copy_b copy_a s e = refl
  put-sent p copy_b copy_b s e = e

  put-IsOrdered :
      (p : Processor G Op) (c : Copy) (s : Side G Op)
      → s.sent ≡ (side G Op p c).sent
      → IsOrdered p
      → IsOrdered (with_side G Op p c s)
  put-IsOrdered p c s e i = record {
    ahead =
        put-sent p c copy_a s e
        ∙ i.ahead
        ∙ ap (λ xs. xs ++ p.pending) (sym (put-sent p c copy_b s e));
    single = i.single;
  }

  readers-IsOrdered :
      (p : Processor G Op) (c : Copy) (n : ℕ)
      → IsOrdered p
      → IsOrdered (with_side G Op p c (with_readers G Op n (side G Op p c)))
  readers-IsOrdered p c n = put-IsOrdered p c (with_readers G Op n (side G Op p c)) refl

  moved-IsOrdered :
      (p : Processor G Op) (phase : Phase) (back : Copy) (closed : Bool)
      → IsOrdered p
      → IsOrdered (record p { phase = phase; back = back; closed = closed })
  moved-IsOrdered p phase back closed i = record { ahead = i.ahead; single = i.single }

  first-IsOrdered :
      (p : Processor G Op) (op : Op)
      → p.pending ≡ []
      → IsOrdered p
      → IsOrdered (record p { a = enqueue G Op op p.a; pending = p.pending ++ op ∷ [] })
  first-IsOrdered p op none i = record {
    ahead = ap (λ xs. xs ++ op ∷ []) i.ahead ∙ append_assoc p.b.sent p.pending (op ∷ []);
    single = λ x xs e. cons_single op x xs (sym (ap (λ ps. ps ++ op ∷ []) none) ∙ e);
  }

  second-IsOrdered :
      (p : Processor G Op) (op : Op) (before later : List Op)
      → p.pending ≡ before ++ op ∷ later
      → IsOrdered p
      → IsOrdered (record p { b = enqueue G Op op p.b; pending = before ++ later })
  second-IsOrdered p op [] later e i = record {
    ahead = i.ahead ∙ ap (λ xs. p.b.sent ++ xs) e ∙ sym (append_assoc p.b.sent (op ∷ []) later);
    single = λ x xs f. absurd (not-append_cons [] x xs (sym f ∙ i.single op later e));
  }
  second-IsOrdered p op (x ∷ before) later e i =
      absurd (not-append_cons before op later (i.single x (before ++ op ∷ later) e))

  Step-IsOrdered :
      {p q : Processor G Op}
      → Step G Op apply_op queue_len min_ops false p q
      → IsOrdered p
      → IsOrdered q
  Step-IsOrdered (send_first p op _ (inl e) _) i = absurd (false-true e)
  Step-IsOrdered (send_first p op _ (inr e) _) i = first-IsOrdered p op e i
  Step-IsOrdered (send_second p op before later e _) i = second-IsOrdered p op before later e i
  Step-IsOrdered (close p _) i = moved-IsOrdered p _ _ _ i
  Step-IsOrdered (read_front p) i = readers-IsOrdered p (other p.back) _ i
  Step-IsOrdered (read_back p free) i = readers-IsOrdered p p.back _ i
  Step-IsOrdered (end_read p c n e) i = readers-IsOrdered p c n i
  Step-IsOrdered (receive_op p n op rest g at _ e _) i =
      moved-IsOrdered _ _ _ _ (put-IsOrdered p p.back _ refl i)
  Step-IsOrdered (receive_none p n at _ _ _) i = moved-IsOrdered p _ _ _ i
  Step-IsOrdered (take_op p n op rest g at e _) i =
      moved-IsOrdered _ _ _ _ (put-IsOrdered p p.back _ refl i)
  Step-IsOrdered (take_none p n at _) i = moved-IsOrdered p _ _ _ i
  Step-IsOrdered (publish_back p n _ _) i = moved-IsOrdered p _ _ _ i
  Step-IsOrdered (lock_to_drain p _ z) i = moved-IsOrdered p _ _ _ i
  Step-IsOrdered (drain_op p n op rest g at e _) i =
      moved-IsOrdered _ _ _ _ (put-IsOrdered p p.back _ refl i)
  Step-IsOrdered (drained_few p n at _ _) i = moved-IsOrdered p _ _ _ i
  Step-IsOrdered (drained_many p n _ _ _) i = moved-IsOrdered p _ _ _ i
  Step-IsOrdered (lock_to_receive p _ z) i = moved-IsOrdered p _ _ _ i

  Reach-IsOrdered :
      {p : Processor G Op}
      → Reach G Op apply_op queue_len min_ops false (new G Op initial) p
      → IsOrdered p
  Reach-IsOrdered here = record {
    ahead = refl;
    single = λ x xs e. absurd (not-append_cons [] x xs (sym e));
  }
  Reach-IsOrdered (next r s) = Step-IsOrdered s (Reach-IsOrdered r)

  -- If a sender begins only when no other is between the two channels, then in every state reached
  -- from the start in which no operation is pending and both channels are empty, the same
  -- operations were sent to both copies in the same order, and each copy is a graph that they may
  -- make of the initial one, applied in that order. The two need not be equal, since `apply_op` is
  -- a relation.
  pub copies_agree :
      {p : Processor G Op}
      → Reach G Op apply_op queue_len min_ops false (new G Op initial) p
      → p.pending ≡ []
      → p.a.queue ≡ []
      → p.b.queue ≡ []
      → (p.a.sent ≡ p.b.sent)
        × Replays apply_op initial p.a.sent p.a.content
        × Replays apply_op initial p.a.sent p.b.content
  copies_agree {p} r none empty_a empty_b =
      let i = Reach-IsSound apply_op queue_len min_ops initial r in
      let o = Reach-IsOrdered r in
      let same = o.ahead ∙ ap (λ xs. p.b.sent ++ xs) none ∙ append-nil p.b.sent in
      (
        same,
        settled apply_op queue_len min_ops initial p.a i.a_replayed empty_a,
        subst (λ ops. Replays apply_op initial ops p.b.content) (sym same)
            (settled apply_op queue_len min_ops initial p.b i.b_replayed empty_b),
      )

  -- Where `apply_op` has a result for every graph and operation: if two senders may be between the
  -- two channels at once, the channels have room for two operations and an exchange comes after
  -- one or two, then for any two operations a state is reached with nothing pending and both
  -- channels empty in which one copy had them applied in one order and the other in the other.
  pub two_senders :
      (x y : Op)
      → ((g : G) (op : Op) → (h : G) × apply_op g op h)
      → 2 ≤ queue_len
      → 1 ≤ min_ops
      → min_ops ≤ 2
      → (q : Processor G Op) × Reach G Op apply_op queue_len min_ops true (new G Op initial) q
        × (q.pending ≡ [])
        × (q.a.queue ≡ [])
        × (q.b.queue ≡ [])
        × Replays apply_op initial (x ∷ y ∷ []) q.a.content
        × Replays apply_op initial (y ∷ x ∷ []) q.b.content
  two_senders x y returns len low high =
      let (a_one, a_first) = returns initial x in
      let (a_two, a_second) = returns a_one y in
      let (b_one, b_first) = returns initial y in
      let (b_two, b_second) = returns b_one x in
      let sent =
        next
          (next
            (next (next here (send_first _ x refl (inl refl) (omega arith)))
              (send_first _ y refl (inl refl) (omega arith)))
            (send_second _ y (x ∷ []) [] refl (omega arith)))
          (send_second _ x [] [] refl (omega arith)) in
      let received =
        next
          (next (next sent (receive_op _ 0 y (x ∷ []) b_one refl (omega arith) refl b_first))
            (take_op _ 1 x [] b_two refl refl b_second))
          (take_none _ 2 refl refl) in
      let drained =
        next
          (next (next (next received (publish_back _ 2 refl high)) (lock_to_drain _ refl refl))
            (drain_op _ 0 x (y ∷ []) a_one refl refl a_first))
          (drain_op _ 1 y [] a_two refl refl a_second) in
      (
        _,
        drained,
        refl,
        refl,
        refl,
        (a_one, a_first, (a_two, a_second, refl)),
        (b_one, b_first, (b_two, b_second, refl)),
      )
