-- ===== src/Service/Processor/Readers.antt =====
-- service/src/state_manager.rs: what a read guard on a copy promises its reader.
use meritrank_rust.Prelude.{ℕ, ◌≡◌, refl, ap, Bool}
use meritrank_rust.Service.Processor.{
  Copy, copy_a, copy_b, other, holds, Side, Processor, side, with_side, new, enqueue, Step, Reach,
  send_first, send_second, close, read_front, read_back, end_read, receive_op, receive_none,
  take_op, take_none, publish_back, lock_to_drain, drain_op, drained_few, drained_many,
  lock_to_receive,
}
use meritrank_rust.Service.Processor.Copies.{IsSound, Reach-IsSound}

module _ {G Op : Type 0} (apply_op : G → Op → G → Type 0) (queue_len min_ops : ℕ)
    (initial : G) where
  put-content :
      (p : Processor G Op) (c d : Copy) (s : Side G Op)
      → s.content ≡ (side G Op p c).content
      → (side G Op (with_side G Op p c s) d).content ≡ (side G Op p d).content
  put-content p copy_a copy_a s e = e
  put-content p copy_a copy_b s e = refl
  put-content p copy_b copy_a s e = refl
  put-content p copy_b copy_b s e = e

  unread-content :
      (p : Processor G Op) (c d : Copy) (s : Side G Op)
      → (side G Op p c).readers ≡ 0
      → ¬ ((side G Op p d).readers ≡ 0)
      → (side G Op (with_side G Op p c s) d).content ≡ (side G Op p d).content
  unread-content p copy_a copy_a s z h = absurd (h z)
  unread-content p copy_a copy_b s z h = refl
  unread-content p copy_b copy_a s z h = refl
  unread-content p copy_b copy_b s z h = absurd (h z)

  Step-content :
      {overlap : Bool} {p q : Processor G Op}
      → Step G Op apply_op queue_len min_ops overlap p q
      → IsSound apply_op queue_len min_ops initial p
      → (c : Copy) → ¬ ((side G Op p c).readers ≡ 0)
      → (side G Op q c).content ≡ (side G Op p c).content
  Step-content (send_first p op _ _ _) i c h = put-content p copy_a c (enqueue G Op op p.a) refl
  Step-content (send_second p op _ _ _ _) i c h = put-content p copy_b c (enqueue G Op op p.b) refl
  Step-content (close p _) i c h = refl
  Step-content (read_front p) i c h = put-content p (other p.back) c _ refl
  Step-content (read_back p _) i c h = put-content p p.back c _ refl
  Step-content (end_read p d n _) i c h = put-content p d c _ refl
  Step-content (receive_op p n op rest g at _ _ _) i c h =
      unread-content p p.back c _ (i.guarded (ap holds at)) h
  Step-content (receive_none p n _ _ _ _) i c h = refl
  Step-content (take_op p n op rest g at _ _) i c h =
      unread-content p p.back c _ (i.guarded (ap holds at)) h
  Step-content (take_none p n _ _) i c h = refl
  Step-content (publish_back p n _ _) i c h = refl
  Step-content (lock_to_drain p _ _) i c h = refl
  Step-content (drain_op p n op rest g at _ _) i c h =
      unread-content p p.back c _ (i.guarded (ap holds at)) h
  Step-content (drained_few p n _ _ _) i c h = refl
  Step-content (drained_many p n _ _ _) i c h = refl
  Step-content (lock_to_receive p _ _) i c h = refl

  -- In every reached state, no step changes a copy of the graph while a reader holds it.
  pub guard_keeps_content :
      {overlap : Bool} {p q : Processor G Op}
      → Reach G Op apply_op queue_len min_ops overlap (new G Op initial) p
      → Step G Op apply_op queue_len min_ops overlap p q
      → (c : Copy) → ¬ ((side G Op p c).readers ≡ 0)
      → (side G Op q c).content ≡ (side G Op p c).content
  guard_keeps_content r s = Step-content s (Reach-IsSound apply_op queue_len min_ops initial r)
