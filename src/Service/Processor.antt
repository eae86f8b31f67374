-- ===== src/Service/Processor.antt =====
-- service/src/state_manager.rs: `FanoutSender`, and the thread that keeps two copies of the graph,
-- one that is read and one that is written, and exchanges them. Senders, readers and the thread take
-- steps in any order. The graph and the operations are arguments, since the thread never looks
-- into them, and so is what `apply_op` may leave: a relation, since it draws random walks. That it
-- panics is outside the model; statistics and notifications are left out.
pub mod Copies
pub mod Order
pub mod Progress
pub mod Readers
use meritrank_rust.Prelude.{
  ℕ, ◌+◌, ◌≤◌, ◌<◌, ◌≡◌, ◌⊎◌, List, [], ◌∷◌, ◌++◌, Bool, true, false, length,
}

-- The two copies and their channels.
pub data Copy : Type 0 where
  copy_a copy_b : Copy

abbrev pub other : Copy → Copy
other copy_a = copy_b
other copy_b = copy_a

-- Where the thread is: in `blocking_recv` of the outer `while`, with the count `applied`; in the
-- `try_recv` behind it; at the two calls of `write`; in the `try_recv` that drains; returned.
pub data Phase : Type 0 where
  receive : ℕ → Phase
  take_more : ℕ → Phase
  lock_drain : Phase
  drain : ℕ → Phase
  lock_receive : Phase
  stopped : Phase

-- Whether the thread holds the write lock of the back copy.
abbrev pub holds : Phase → Bool
holds lock_drain = false
holds lock_receive = false
holds stopped = false
holds _ = true

abbrev pub choose {ℓ} : {A : Type ℓ} → Copy → A → A → A
choose copy_a x y = x
choose copy_b x y = y

module _ (G Op : Type 0) where
  -- A copy with its channel and its read guards. `sent` is what was ever sent to it.
  pub record Side : Type 0 where
    pub content : G
    pub queue : List Op
    pub readers : ℕ
    pub sent : List Op

  -- `pending` are the operations that a sender has put in the first channel only.
  pub record Processor : Type 0 where
    pub a : Side
    pub b : Side
    pub back : Copy
    pub phase : Phase
    pub pending : List Op
    pub closed : Bool

  abbrev pub side : Processor → Copy → Side
  side p c = choose c p.a p.b

  abbrev pub with_side : Processor → Copy → Side → Processor
  with_side p c s = record p { a = choose c s p.a; b = choose c p.b s }

  -- The copy that `shared` points to is the front one.
  abbrev pub published : Processor → G
  published p = (side p (other p.back)).content

  abbrev pub new : G → Processor
  new initial = record {
    a = record { content = initial; queue = []; readers = 0; sent = [] };
    b = record { content = initial; queue = []; readers = 0; sent = [] };
    back = copy_b;
    phase = receive 0;
    pending = [];
    closed = false;
  }

  abbrev pub enqueue : Op → Side → Side
  enqueue op s = record s { queue = s.queue ++ op ∷ []; sent = s.sent ++ op ∷ [] }

  abbrev pub with_readers : ℕ → Side → Side
  with_readers n s = record s { readers = n }

  module _ (apply_op : G → Op → G → Type 0) (queue_len min_ops : ℕ) where
    -- `apply_one` has left `g` in the back copy, and `rest` is what is left in its channel.
    abbrev pub apply_back : G → List Op → Phase → Processor → Processor
    apply_back g rest phase p =
        record (with_side p p.back (record (side p p.back) { content = g; queue = rest })) {
          phase = phase;
        }

    -- The guard is dropped, the back copy is published, and the copies are exchanged.
    abbrev pub publish : Phase → Processor → Processor
    publish phase p = record p { back = other p.back; phase = phase }

    -- A step of a sender, of a reader or of the thread. Where `overlap` is false, a sender begins
    -- only when no other is between its two channels.
    pub data Step (overlap : Bool) : Processor → Processor → Type 0 where
      send_first :
          (p : Processor) (op : Op)
          → p.closed ≡ false
          → (overlap ≡ true) ⊎ (p.pending ≡ [])
          → length p.a.queue < queue_len
          → Step overlap p (record p { a = enqueue op p.a; pending = p.pending ++ op ∷ [] })
      send_second :
          (p : Processor) (op : Op) (before later : List Op)
          → p.pending ≡ before ++ op ∷ later
          → length p.b.queue < queue_len
          → Step overlap p (record p { b = enqueue op p.b; pending = before ++ later })
      close : (p : Processor) → p.pending ≡ [] → Step overlap p (record p { closed = true })
      read_front :
          (p : Processor)
          → Step overlap p (
              with_side p
                (other p.back)
                (with_readers ((side p (other p.back)).readers + 1) (side p (other p.back))))
      -- by an Arc that was loaded before the copies were exchanged
      read_back :
          (p : Processor)
          → holds p.phase ≡ false
          → Step overlap p
              (with_side p p.back (with_readers ((side p p.back).readers + 1) (side p p.back)))
      end_read :
          (p : Processor) (c : Copy) (n : ℕ)
          → (side p c).readers ≡ n + 1
          → Step overlap p (with_side p c (with_readers n (side p c)))
      receive_op :
          (p : Processor) (n : ℕ) (op : Op) (rest : List Op) (g : G)
          → p.phase ≡ receive n
          → n < min_ops
          → (side p p.back).queue ≡ op ∷ rest
          → apply_op (side p p.back).content op g
          → Step overlap p (apply_back g rest (take_more (n + 1)) p)
      receive_none :
          (p : Processor) (n : ℕ)
          → p.phase ≡ receive n
          → n < min_ops
          → (side p p.back).queue ≡ []
          → p.closed ≡ true
          → Step overlap p (record p { phase = stopped })
      take_op :
          (p : Processor) (n : ℕ) (op : Op) (rest : List Op) (g : G)
          → p.phase ≡ take_more n
          → (side p p.back).queue ≡ op ∷ rest
          → apply_op (side p p.back).content op g
          → Step overlap p (apply_back g rest (take_more (n + 1)) p)
      take_none :
          (p : Processor) (n : ℕ)
          → p.phase ≡ take_more n
          → (side p p.back).queue ≡ []
          → Step overlap p (record p { phase = receive n })
      publish_back :
          (p : Processor) (n : ℕ)
          → p.phase ≡ receive n
          → min_ops ≤ n
          → Step overlap p (publish lock_drain p)
      lock_to_drain :
          (p : Processor)
          → p.phase ≡ lock_drain
          → (side p p.back).readers ≡ 0
          → Step overlap p (record p { phase = drain 0 })
      drain_op :
          (p : Processor) (n : ℕ) (op : Op) (rest : List Op) (g : G)
          → p.phase ≡ drain n
          → (side p p.back).queue ≡ op ∷ rest
          → apply_op (side p p.back).content op g
          → Step overlap p (apply_back g rest (drain (n + 1)) p)
      drained_few :
          (p : Processor) (n : ℕ)
          → p.phase ≡ drain n
          → (side p p.back).queue ≡ []
          → n < min_ops
          → Step overlap p (record p { phase = receive 0 })
      drained_many :
          (p : Processor) (n : ℕ)
          → p.phase ≡ drain n
          → (side p p.back).queue ≡ []
          → min_ops ≤ n
          → Step overlap p (publish lock_receive p)
      lock_to_receive :
          (p : Processor)
          → p.phase ≡ lock_receive
          → (side p p.back).readers ≡ 0
          → Step overlap p (record p { phase = receive 0 })

    pub data Reach (overlap : Bool) (p : Processor) : Processor → Type 0 where
      here : Reach overlap p p
      next : {q r : Processor} → Reach overlap p q → Step overlap q r → Reach overlap p r
