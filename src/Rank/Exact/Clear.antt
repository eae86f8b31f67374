-- ===== src/Rank/Exact/Clear.antt =====
-- core/src/walk_storage.rs: `clear_block_for_ego` empties the block of an ego, and takes back the
-- counts of its walks.
use meritrank_rust.Prelude.{
  ℕ, zero, suc, ◌+◌, ◌≤◌, ◌<◌, ◌≡◌, ◌⊎◌, refl, ◌∙◌, inl, inr, List, [], ◌∷◌, some, true, false,
  ◌==◌, arith, head?, is_empty, set, subst, get_elem?-set_self, Bool-cases, get_elem?_lt_some,
}
use meritrank_rust.Deps.{Deps}
use meritrank_rust.Errors.{Result, ok, err, panic, no_fuel}
use meritrank_rust.RandomWalk.{RandomWalk, new}
use meritrank_rust.RandomWalk
use meritrank_rust.WalkStorage.{
  WalkStorage, Hits, get_walk, put_walk, forget_visits, revert_hits, clear_slot, clear_slots,
  and_then,
}
use meritrank_rust.WalkStorage.Index.{clear_slot-IsIndexed}
use meritrank_rust.Rank.Exact.{InBlock, IsExact, IsCounted}
use meritrank_rust.Rank.Exact.Counted.{revert_hits-IsCounted, IsCounted-empty}
use meritrank_rust.Rank.Exact.Blocks.{set-set, IsStored-put}
use meritrank_rust.Rank.Exact.Pending.{Frame, Frame-refl, Frame-put, IsStored-visits}

abbrev pub IsEmptySlot : WalkStorage → ℕ → Type 0
IsEmptySlot st i = (w : RandomWalk) → get_walk st i ≡ some w → w.nodes ≡ []

is_empty_nil : (ns : List ℕ) → is_empty ns ≡ true → ns ≡ []
is_empty_nil [] h = refl
is_empty_nil (n ∷ ns) h = cc

nil_or_head :
    (ns : List ℕ) (ego : ℕ)
    → is_empty ns ≡ false
    → (ns ≡ []) ⊎ (head? ns ≡ some ego)
    → head? ns ≡ some ego
nil_or_head [] ego h o = cc
nil_or_head (n ∷ ns) ego h (inl e) = cc
nil_or_head (n ∷ ns) ego h (inr e) = e

pub Frame-InBlock :
    (i ego j : ℕ) (before st : WalkStorage)
    → Frame i before st
    → InBlock before ego j
    → InBlock st ego j
Frame-InBlock i ego j before st p (start, at, low, high) =
    (start, rw p.blocks at, low, rw p.size high)

module _ (d : Deps) where
  -- One slot: emptied, with the storage exact and the other slots as they were.
  pub record IsCleared (i : ℕ) (before st : WalkStorage) (hits : Hits) : Type 0 where
    pub exact : IsExact st hits
    pub emptied : IsEmptySlot st i
    pub frame : Frame i before st

  abbrev cleared : WalkStorage → ℕ → RandomWalk → WalkStorage
  cleared st i w = record st {
    visits = forget_visits st.visits i w.nodes;
    walks = set st.walks i (RandomWalk.clear w);
  }

  clear_slot-IsCleared :
      (st : WalkStorage) (hits : Hits) (ego i : ℕ)
      → IsExact st hits
      → InBlock st ego i
      → let r = clear_slot d.sets st hits ego i in (r.1 ≡ ok tt) × IsCleared i st r.0.0 r.0.1
  unfolding clear_slot RandomWalk.clear
  clear_slot-IsCleared st hits ego i p inside =
      let (w, found) = get_elem?_lt_some st.walks i (p.stored.bounded ego i inside) in
      let index = clear_slot-IsIndexed d.sets st hits ego i p.indexed in
      elim (Bool-cases (is_empty w.nodes)) [
        | inl e ↦
            rw (found, clear_slot)
              (rw e (
                refl,
                record {
                  exact = p;
                  emptied = λ u at.
                      let same : w ≡ u = cc in
                      subst (λ x. x.nodes ≡ []) same (is_empty_nil w.nodes e);
                  frame = Frame-refl i st;
                },
              ))
        | inr e ↦
            let head = nil_or_head w.nodes ego e (p.stored.owned ego i w inside found) in
            rw (found, clear_slot)
              (rw e (
                refl,
                record {
                  exact = record {
                    indexed = rw e at (rw (found, clear_slot) at index);
                    counted =
                        subst (λ ws. IsCounted ws (revert_hits d.sets hits ego w))
                          (set-set st.walks i new (RandomWalk.clear w))
                          (IsCounted-empty (set st.walks i new) i new (RandomWalk.clear w) _
                            (get_elem?-set_self st.walks i new (p.stored.bounded ego i inside)) refl
                            refl
                            (revert_hits-IsCounted d st.walks i ego w hits found head p.counted));
                    stored =
                        IsStored-visits (put_walk st i (RandomWalk.clear w)) _ (
                          IsStored-put st i w (RandomWalk.clear w) found p.stored
                            (λ _ _. inl refl));
                  };
                  emptied = λ u at.
                      let same : RandomWalk.clear w ≡ u = ground (
                        arith,
                        get_elem?-set_self st.walks i (RandomWalk.clear w)
                            (p.stored.bounded ego i inside),
                      ) in
                      subst (λ x. x.nodes ≡ []) same refl;
                  frame = Frame-put i st st w (RandomWalk.clear w) _ found (Frame-refl i st);
                },
              ))
      ]

  -- The slots from `i` on, as many as `left`.
  pub record AreCleared (i left : ℕ) (before st : WalkStorage) (hits : Hits) : Type 0 where
    pub exact : IsExact st hits
    pub emptied : (j : ℕ) → i ≤ j → j < i + left → IsEmptySlot st j
    pub lower : (j : ℕ) → j < i → get_walk st j ≡ get_walk before j
    pub blocks : st.ego_blocks ≡ before.ego_blocks
    pub size : st.walks_per_ego ≡ before.walks_per_ego

  -- The result is ok.
  abbrev Cleared : ℕ → ℕ → WalkStorage → (WalkStorage × Hits) × Result (Unit {0}) → Type 0
  Cleared i left before r = (r.1 ≡ ok tt) × AreCleared i left before r.0.0 r.0.1

  and_then-ok :
      (r : (WalkStorage × Hits) × Result (Unit {0}))
      (rest : WalkStorage → Hits → (WalkStorage × Hits) × Result (Unit {0}))
      → r.1 ≡ ok tt
      → and_then d.sets r rest ≡ rest r.0.0 r.0.1
  unfolding and_then
  and_then-ok ((st, hits), ok u) rest h = refl
  and_then-ok ((st, hits), err e) rest h = cc
  and_then-ok ((st, hits), panic) rest h = cc
  and_then-ok ((st, hits), no_fuel) rest h = cc

  pub clear_slots-Cleared :
      (left : ℕ) (st : WalkStorage) (hits : Hits) (ego i : ℕ)
      → IsExact st hits
      → ((j : ℕ) → i ≤ j → j < i + left → InBlock st ego j)
      → Cleared i left st (clear_slots d.sets left st hits ego i)
  unfolding clear_slots
  clear_slots-Cleared zero st hits ego i p inside = (
    refl,
    record {
      exact = p;
      emptied = λ j low high. absurd (omega arith);
      lower = λ j h. refl;
      blocks = refl;
      size = refl;
    },
  )
  clear_slots-Cleared (suc left) st hits ego i p inside =
      let first = clear_slot d.sets st hits ego i in
      let (done, c) = clear_slot-IsCleared st hits ego i p (inside i (omega arith) (omega arith)) in
      let (done', r) =
        clear_slots-Cleared left first.0.0 first.0.1 ego (i + 1) c.exact (λ j low high.
          Frame-InBlock i ego j st first.0.0 c.frame (inside j (omega arith) (omega arith))) in
      rw (and_then-ok first (λ st' hits'. clear_slots d.sets left st' hits' ego (i + 1)) done) (
        done',
        record {
          exact = r.exact;
          emptied = λ j low high. elim (Bool-cases (i == j)) [
            | inl same ↦ λ w at. c.emptied w (ground (arith, r.lower i, r.lower j))
            | inr other ↦ r.emptied j (ground arith) (omega arith)
          ];
          lower = λ j h. r.lower j (omega arith) ∙ c.frame.others j (ground arith);
          blocks = r.blocks ∙ c.frame.blocks;
          size = r.size ∙ c.frame.size;
        },
      )
