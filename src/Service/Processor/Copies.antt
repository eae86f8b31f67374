-- ===== src/Service/Processor/Copies.antt =====
-- service/src/state_manager.rs: what each of the two copies holds, and that no reader sees one change.
use meritrank_rust.Prelude.{
  ℕ, ◌+◌, ◌≡◌, refl, sym, ap, subst, ◌∙◌, List, [], ◌∷◌, ◌++◌, Bool, true, false, arith,
}
use mathlib.Core.List.{append_assoc, append-nil}
use meritrank_rust.Service.Processor.{
  Copy, copy_a, copy_b, other, Phase, lock_drain, lock_receive, holds, Side, Processor, side,
  with_side, new, enqueue, with_readers, Step, Reach, apply_back, publish, send_first, send_second,
  close, read_front, read_back, end_read, receive_op, receive_none, take_op, take_none,
  publish_back, lock_to_drain, drain_op, drained_few, drained_many, lock_to_receive, here, next,
}

pub false-true : ¬ (false ≡ true)
false-true e = cc

-- What the operations, applied in order, may make of a graph.
abbrev pub Replays : {G Op : Type 0} → (G → Op → G → Type 0) → G → List Op → G → Type 0
Replays apply_op g [] h = h ≡ g
Replays {G} apply_op g (op ∷ ops) h = (m : G) × apply_op g op m × Replays apply_op m ops h

pub Replays-append :
    {G Op : Type 0} (apply_op : G → Op → G → Type 0) (g h k : G) (xs ys : List Op)
    → Replays apply_op g xs h
    → Replays apply_op h ys k
    → Replays apply_op g (xs ++ ys) k
Replays-append apply_op g h k [] ys r q = subst (λ x. Replays apply_op x ys k) r q
Replays-append apply_op g h k (x ∷ xs) ys (m, step, r) q =
    (m, step, Replays-append apply_op m h k xs ys r q)

module _ {G Op : Type 0} (apply_op : G → Op → G → Type 0) (queue_len min_ops : ℕ)
    (initial : G) where
  -- A copy holds the result of the first of the operations sent to it, and its channel the others.
  pub record IsReplayed (s : Side G Op) : Type 0 where
    pub done : List Op
    pub split : s.sent ≡ done ++ s.queue
    pub result : Replays apply_op initial done s.content

  pub record IsSound (p : Processor G Op) : Type 0 where
    pub a_replayed : IsReplayed p.a
    pub b_replayed : IsReplayed p.b
    -- while the thread holds the back copy, no reader does
    pub guarded : holds p.phase ≡ true → (side G Op p p.back).readers ≡ 0

  enqueue-IsReplayed : (op : Op) (s : Side G Op) → IsReplayed s → IsReplayed (enqueue G Op op s)
  enqueue-IsReplayed op s r = record {
    done = r.done;
    split = ap (λ xs. xs ++ op ∷ []) r.split ∙ append_assoc r.done s.queue (op ∷ []);
    result = r.result;
  }

  readers-IsReplayed : (n : ℕ) (s : Side G Op) → IsReplayed s → IsReplayed (with_readers G Op n s)
  readers-IsReplayed n s r = record { done = r.done; split = r.split; result = r.result }

  pub settled :
      (s : Side G Op) → IsReplayed s → s.queue ≡ [] → Replays apply_op initial s.sent s.content
  settled s r e =
      subst (λ ops. Replays apply_op initial ops s.content)
        (sym (r.split ∙ ap (λ q. r.done ++ q) e ∙ append-nil r.done)) r.result

  pub new-IsSound : IsSound (new G Op initial)
  new-IsSound = record {
    a_replayed = record { done = []; split = refl; result = refl };
    b_replayed = record { done = []; split = refl; result = refl };
    guarded = λ h. refl;
  }

  applied-IsReplayed :
      (op : Op) (rest : List Op) (g : G) (s : Side G Op)
      → s.queue ≡ op ∷ rest
      → apply_op s.content op g
      → IsReplayed s
      → IsReplayed (record s { content = g; queue = rest })
  applied-IsReplayed op rest g s e step r = record {
    done = r.done ++ op ∷ [];
    split = r.split ∙ ap (λ q. r.done ++ q) e ∙ sym (append_assoc r.done (op ∷ []) rest);
    result = Replays-append apply_op initial s.content g r.done (op ∷ []) r.result (g, step, refl);
  }

  pub IsReplayed-at : (p : Processor G Op) (c : Copy) → IsSound p → IsReplayed (side G Op p c)
  IsReplayed-at p copy_a i = i.a_replayed
  IsReplayed-at p copy_b i = i.b_replayed

  put-IsReplayed :
      (p : Processor G Op) (c d : Copy) (s : Side G Op)
      → IsSound p
      → IsReplayed s
      → IsReplayed (side G Op (with_side G Op p c s) d)
  put-IsReplayed p copy_a copy_a s i r = r
  put-IsReplayed p copy_a copy_b s i r = i.b_replayed
  put-IsReplayed p copy_b copy_a s i r = i.a_replayed
  put-IsReplayed p copy_b copy_b s i r = r

  put-readers :
      (p : Processor G Op) (c d : Copy) (s : Side G Op)
      → s.readers ≡ (side G Op p c).readers
      → (side G Op (with_side G Op p c s) d).readers ≡ (side G Op p d).readers
  put-readers p copy_a copy_a s e = e
  put-readers p copy_a copy_b s e = refl
  put-readers p copy_b copy_a s e = refl
  put-readers p copy_b copy_b s e = e

  put-other :
      (p : Processor G Op) (c : Copy) (s : Side G Op)
      → side G Op (with_side G Op p (other c) s) c ≡ side G Op p c
  put-other p copy_a s = refl
  put-other p copy_b s = refl

  end-readers :
      (p : Processor G Op) (c d : Copy) (n : ℕ)
      → (side G Op p c).readers ≡ n + 1
      → (side G Op p d).readers ≡ 0
      → (side G Op (with_side G Op p c (with_readers G Op n (side G Op p c))) d).readers ≡ 0
  end-readers p copy_a copy_a n e z = omega arith
  end-readers p copy_a copy_b n e z = z
  end-readers p copy_b copy_a n e z = z
  end-readers p copy_b copy_b n e z = omega arith

  put-IsSound :
      (p : Processor G Op) (c : Copy) (s : Side G Op)
      → IsSound p
      → IsReplayed s
      → (holds p.phase ≡ true → (side G Op (with_side G Op p c s) p.back).readers ≡ 0)
      → IsSound (with_side G Op p c s)
  put-IsSound p c s i r g = record {
    a_replayed = put-IsReplayed p c copy_a s i r;
    b_replayed = put-IsReplayed p c copy_b s i r;
    guarded = g;
  }

  applied-IsSound :
      (p : Processor G Op) (op : Op) (rest : List Op) (g : G) (phase : Phase)
      → IsSound p
      → holds p.phase ≡ true
      → (side G Op p p.back).queue ≡ op ∷ rest
      → apply_op (side G Op p p.back).content op g
      → IsSound (apply_back G Op apply_op queue_len min_ops g rest phase p)
  applied-IsSound p op rest g phase i h e step =
      let applied =
        applied-IsReplayed op rest g (side G Op p p.back) e step (IsReplayed-at p p.back i) in
      record {
        a_replayed = put-IsReplayed p p.back copy_a _ i applied;
        b_replayed = put-IsReplayed p p.back copy_b _ i applied;
        guarded = λ _. put-readers p p.back p.back _ refl ∙ i.guarded h;
      }

  -- The fields that soundness does not read may change, and the phase if no lock is taken.
  moved-IsSound :
      (p : Processor G Op) (phase : Phase) (pending : List Op) (closed : Bool)
      → (holds phase ≡ true → holds p.phase ≡ true)
      → IsSound p
      → IsSound (record p { phase = phase; pending = pending; closed = closed })
  moved-IsSound p phase pending closed h i = record {
    a_replayed = i.a_replayed;
    b_replayed = i.b_replayed;
    guarded = λ e. i.guarded (h e);
  }

  published-IsSound :
      (p : Processor G Op) (phase : Phase)
      → holds phase ≡ false
      → IsSound p
      → IsSound (publish G Op apply_op queue_len min_ops phase p)
  published-IsSound p phase h i = record {
    a_replayed = i.a_replayed;
    b_replayed = i.b_replayed;
    guarded = λ e. absurd (false-true (sym h ∙ e));
  }

  locked-IsSound :
      (p : Processor G Op) (phase : Phase)
      → (side G Op p p.back).readers ≡ 0
      → IsSound p
      → IsSound (record p { phase = phase })
  locked-IsSound p phase z i = record {
    a_replayed = i.a_replayed;
    b_replayed = i.b_replayed;
    guarded = λ _. z;
  }

  pub Step-IsSound :
      {overlap : Bool} {p q : Processor G Op}
      → Step G Op apply_op queue_len min_ops overlap p q
      → IsSound p
      → IsSound q
  Step-IsSound (send_first p op _ _ _) i =
      moved-IsSound _ _ _ _ (λ h. h)
        (put-IsSound p copy_a _ i (enqueue-IsReplayed op p.a i.a_replayed)
          (λ h. put-readers p copy_a p.back (enqueue G Op op p.a) refl ∙ i.guarded h))
  Step-IsSound (send_second p op before later _ _) i =
      moved-IsSound _ _ _ _ (λ h. h)
        (put-IsSound p copy_b _ i (enqueue-IsReplayed op p.b i.b_replayed)
          (λ h. put-readers p copy_b p.back (enqueue G Op op p.b) refl ∙ i.guarded h))
  Step-IsSound (close p _) i = moved-IsSound p _ _ _ (λ h. h) i
  Step-IsSound (read_front p) i =
      put-IsSound p _ _ i (readers-IsReplayed _ _ (IsReplayed-at p _ i))
        (λ h. ap (λ s. s.readers) (put-other p p.back _) ∙ i.guarded h)
  Step-IsSound (read_back p free) i =
      put-IsSound p _ _ i (readers-IsReplayed _ _ (IsReplayed-at p _ i))
        (λ h. absurd (false-true (sym free ∙ h)))
  Step-IsSound (end_read p c n e) i =
      put-IsSound p _ _ i (readers-IsReplayed _ _ (IsReplayed-at p _ i))
        (λ h. end-readers p c p.back n e (i.guarded h))
  Step-IsSound (receive_op p n op rest g at _ e step) i =
      applied-IsSound p op rest g _ i (ap holds at) e step
  Step-IsSound (receive_none p n at _ _ _) i = moved-IsSound p _ _ _ (λ h. absurd (false-true h)) i
  Step-IsSound (take_op p n op rest g at e step) i =
      applied-IsSound p op rest g _ i (ap holds at) e step
  Step-IsSound (take_none p n at _) i = moved-IsSound p _ _ _ (λ _. ap holds at) i
  Step-IsSound (publish_back p n _ _) i = published-IsSound p lock_drain refl i
  Step-IsSound (lock_to_drain p _ z) i = locked-IsSound p _ z i
  Step-IsSound (drain_op p n op rest g at e step) i =
      applied-IsSound p op rest g _ i (ap holds at) e step
  Step-IsSound (drained_few p n at _ _) i = moved-IsSound p _ _ _ (λ _. ap holds at) i
  Step-IsSound (drained_many p n _ _ _) i = published-IsSound p lock_receive refl i
  Step-IsSound (lock_to_receive p _ z) i = locked-IsSound p _ z i

  -- In every state reached from the start, whatever the order of the steps of senders, readers and
  -- the thread, each copy is a graph that the first of the operations sent to it may make of the
  -- initial one, applied in order, and its channel holds the others; and no reader holds the copy
  -- that the thread holds for writing.
  pub Reach-IsSound :
      {overlap : Bool} {p : Processor G Op}
      → Reach G Op apply_op queue_len min_ops overlap (new G Op initial) p
      → IsSound p
  Reach-IsSound here = new-IsSound
  Reach-IsSound (next r s) = Step-IsSound s (Reach-IsSound r)
