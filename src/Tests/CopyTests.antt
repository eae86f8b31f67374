-- ===== src/Tests/CopyTests.antt =====
-- The steps of service/src/state_manager.rs's two copies on core/src/rank.rs's MeritRank. Of what
-- service/src/aug_graph/absorb.rs applies, this takes what reaches the core of two operations, the
-- calculation for an ego and `ClearEgo`; an error is logged there, and the graph is kept.
use meritrank_rust.Prelude.{ℕ, ◌≡◌, refl, inr, some, none, List, [], ◌∷◌, false, arith}
use meritrank_rust.Errors.{Result, ok, err, panic, no_fuel}
use meritrank_rust.Rank.State.{MeritRank, World, M}
use meritrank_rust.Rank.Calculate
use meritrank_rust.Service.Processor.{
  copy_a, drain, Processor, new, Reach, send_first, send_second, receive_op, take_none,
  publish_back, lock_to_drain, drain_op, here, next,
}
use meritrank_rust.Service.Processor.Copies.{Replays}
use meritrank_rust.Service.Processor.Order.{copies_agree}
use meritrank_rust.Tests.Concrete.{deps}
use meritrank_rust.Tests.RankTests.{machine, small, walked, walked_done}

data CoreOp : Type 0 where
  calculate : ℕ → CoreOp
  clear_ego : ℕ → CoreOp

abbrev run : CoreOp → M deps (Unit {0})
run (calculate ego) = Calculate.calculate deps false 9 ego
run (clear_ego ego) = Calculate.clear_ego deps ego

-- It returned, with an error or without.
abbrev IsLogged : Result (Unit {0}) → Type 0
IsLogged (ok u) = Unit {0}
IsLogged (err e) = Unit {0}
IsLogged panic = ⊥
IsLogged no_fuel = ⊥

-- What may be left is what some state of the generator gives.
abbrev Leaves : MeritRank deps → CoreOp → MeritRank deps → Type 0
Leaves g op h =
    (s : List ℕ) × (h ≡ (run op (record { mr = g; state = s })).0.mr)
    × IsLogged (run op (record { mr = g; state = s })).1

-- Another tape of draws than that of `small`.
abbrev elsewhere : World deps
elsewhere = (Calculate.calculate deps false 9 0 (record small { state = 95 ∷ [] })).0

IsLogged-ok : (r : Result (Unit {0})) → r ≡ ok tt → IsLogged r
IsLogged-ok (ok u) e = tt
IsLogged-ok (err x) e = tt
IsLogged-ok panic e = cc
IsLogged-ok no_fuel e = cc

Leaves-walked : Leaves small.mr (calculate 0) walked.mr
Leaves-walked = (small.state, refl, IsLogged-ok _ walked_done)

Leaves-elsewhere : Leaves small.mr (calculate 0) elsewhere.mr
unfolding machine
Leaves-elsewhere = (95 ∷ [], refl, tt)

-- The same operation leaves different walks.
walks_differ :
    (walked.mr.walks.walks
      ≡ record { nodes = 0 ∷ 1 ∷ 2 ∷ []; negative_segment_start = some 2 } ∷ [])
    × (elsewhere.mr.walks.walks ≡ record { nodes = 0 ∷ []; negative_segment_start = none } ∷ [])
unfolding machine
walks_differ = (refl, refl)

-- Both copies calculate for node 0, each with its own draws.
abbrev calculated : Processor (MeritRank deps) CoreOp
calculated = record {
  a = record { content = walked.mr; queue = []; readers = 0; sent = calculate 0 ∷ [] };
  b = record { content = elsewhere.mr; queue = []; readers = 0; sent = calculate 0 ∷ [] };
  back = copy_a;
  phase = drain 1;
  pending = [];
  closed = false;
}

calculated_both :
    Reach (MeritRank deps) CoreOp Leaves 4 1 false (new (MeritRank deps) CoreOp small.mr) calculated
calculated_both =
    let sent =
      next (next here (send_first _ (calculate 0) refl (inr refl) (omega arith)))
        (send_second _ (calculate 0) [] [] refl (omega arith)) in
    let received =
      next
        (next sent
          (receive_op _ 0 (calculate 0) [] elsewhere.mr refl (omega arith) refl Leaves-elsewhere))
        (take_none _ 1 refl refl) in
    next (next (next received (publish_back _ 1 refl (omega arith))) (lock_to_drain _ refl refl))
      (drain_op _ 0 (calculate 0) [] walked.mr refl refl Leaves-walked)

copies_agree_example :
    (calculated.a.sent ≡ calculated.b.sent)
    × Replays Leaves small.mr calculated.a.sent calculated.a.content
    × Replays Leaves small.mr calculated.a.sent calculated.b.content
copies_agree_example = copies_agree Leaves 4 1 small.mr calculated_both refl refl refl
