-- ===== src/Rank/Exact/Pending.antt =====
-- core/src/rank.rs: the state while one walk is redrawn. Its counts are taken back, and the table of
-- visits knows the walk's first nodes only.
use meritrank_rust.Prelude.{
  ℕ, zero, suc, ◌≤◌, ◌≡◌, refl, sym, ◌∙◌, ap, inr, List, [], ◌∷◌, ◌++◌, some, false, if◌then◌else◌,
  ◌==◌, arith, length, head?, take, set, subst, find_index, get_elem?-set, get_elem?-set_self,
  lt-length_of_get_elem?, length-append,
}
use mathlib.Core.List.{append_assoc}
use meritrank_rust.Prelude.IntMap.{IntMap}
use meritrank_rust.Deps.{Deps}
use meritrank_rust.RandomWalk.{RandomWalk, new}
use meritrank_rust.WalkStorage.{WalkStorage, Hits, get_walk, put_walk, update_walk_bookkeeping}
use meritrank_rust.WalkStorage.Visits.{visit_of}
use meritrank_rust.WalkStorage.Index.{first_visit, update_walk_bookkeeping-IsIndexed}
use meritrank_rust.Rank.State.{count_hits}
use meritrank_rust.Rank.Exact.{InBlock, IsStored, IsExact, IsCounted}
use meritrank_rust.Rank.Exact.Counted.{count_hits-IsCounted}
use meritrank_rust.Rank.Exact.Blocks.{set-set, IsStored-back}
use meritrank_rust.Graph.Walks.Keeps.{Continues}

-- Only slot `i` may differ from the storage that there was.
pub record Frame (i : ℕ) (before st : WalkStorage) : Type 0 where
  pub others : (j : ℕ) → (i == j) ≡ false → get_walk st j ≡ get_walk before j
  pub blocks : st.ego_blocks ≡ before.ego_blocks
  pub size : st.walks_per_ego ≡ before.walks_per_ego

pub Frame-refl : (i : ℕ) (st : WalkStorage) → Frame i st st
Frame-refl i st = record { others = λ j h. refl; blocks = refl; size = refl }

pub Frame-put :
    (i : ℕ) (before st : WalkStorage) (u w : RandomWalk) (visits : List (IntMap ℕ))
    → get_walk st i ≡ some u
    → Frame i before st
    → Frame i before (record st { walks = set st.walks i w; visits = visits })
Frame-put i before st u w visits found p = record {
  others = λ j h. ground (arith, p.others j h, get_elem?-set st.walks i j u w found);
  blocks = p.blocks;
  size = p.size;
}

Frame-visits :
    (i : ℕ) (before st : WalkStorage) (visits : List (IntMap ℕ))
    → Frame i before st
    → Frame i before (record st { visits = visits })
Frame-visits i before st visits p = record { others = p.others; blocks = p.blocks; size = p.size }

-- The walk in slot `i` of an ego starts with the nodes `known`; the table of visits has `seen`.
pub record IsPending (i ego : ℕ) (seen known : List ℕ) (before st : WalkStorage) (hits : Hits)
    : Type 0 where
  pub walk : RandomWalk
  pub found : get_walk st i ≡ some walk
  pub more : List ℕ
  pub grown : walk.nodes ≡ known ++ more
  pub visited :
      (node k : ℕ)
      → visit_of st.visits node k
        ≡ (if i == k then find_index node seen else first_visit st.walks node k)
  pub counted : IsCounted (set st.walks i new) hits
  pub stored : IsStored (put_walk st i new)
  pub frame : Frame i before st
  pub mine : (e : ℕ) → InBlock st e i → e ≡ ego

pub IsPending-put :
    {i ego : ℕ} {seen known : List ℕ} {before st : WalkStorage} {hits : Hits}
    (p : IsPending i ego seen known before st hits) (w : RandomWalk)
    → Continues w p.walk
    → IsPending i ego seen known before (put_walk st i w) hits
IsPending-put {i} {ego} {seen} {known} {before} {st} {hits} p w (more, e) = record {
  walk = w;
  found = get_elem?-set_self st.walks i w (lt-length_of_get_elem? st.walks i p.walk p.found);
  more = p.more ++ more;
  grown = e ∙ ap (λ ns. ns ++ more) p.grown ∙ append_assoc known p.more more;
  visited = λ node k. ground (arith, p.visited node k, get_elem?-set st.walks i k p.walk w p.found);
  counted = subst (λ ws. IsCounted ws hits) (sym (set-set st.walks i w new)) p.counted;
  stored =
      subst (λ ws. IsStored (record st { walks = ws })) (sym (set-set st.walks i w new)) p.stored;
  frame = Frame-put i before st p.walk w st.visits p.found p.frame;
  mine = p.mine;
}

pub IsStored-visits :
    (st : WalkStorage) (visits : List (IntMap ℕ))
    → IsStored st
    → IsStored (record st { visits = visits })
IsStored-visits st visits p = record { owned = p.owned; apart = p.apart; bounded = p.bounded }

take-append_left : (n : ℕ) (xs ys : List ℕ) → n ≤ length xs → take n (xs ++ ys) ≡ take n xs
take-append_left zero xs ys h = refl
take-append_left (suc n) [] ys h = absurd (omega arith)
take-append_left (suc n) (x ∷ xs) ys h = ap (◌∷◌ x) (take-append_left n xs ys (omega arith))

head?-append : (xs ys : List ℕ) (x : ℕ) → head? xs ≡ some x → head? (xs ++ ys) ≡ some x
head?-append [] ys x h = cc
head?-append (y ∷ xs) ys x h = h

module _ (d : Deps) where
  -- The walk is counted and its visits are noted.
  pub IsPending-finish :
      (i ego start : ℕ) (seen known : List ℕ) (before st : WalkStorage) (hits : Hits)
      (p : IsPending i ego seen known before st hits)
      → head? known ≡ some ego
      → start ≤ length known
      → take start known ≡ seen
      → IsExact (update_walk_bookkeeping st i start) (count_hits d hits ego p.walk)
        × Frame i before (update_walk_bookkeeping st i start)
  unfolding update_walk_bookkeeping
  IsPending-finish i ego start seen known before st hits p first within same =
      let head : head? p.walk.nodes ≡ some ego = rw p.grown (head?-append known p.more ego first) in
      let long : start ≤ length p.walk.nodes =
        rw p.grown (omega (arith, length-append {0} known p.more)) in
      let begun : take start p.walk.nodes ≡ seen =
        rw p.grown (take-append_left start known p.more within ∙ same) in
      (
        record {
          indexed =
              update_walk_bookkeeping-IsIndexed st i start p.walk p.found long
                (λ node k. rw begun (p.visited node k));
          counted =
              rw (p.found, update_walk_bookkeeping)
                (count_hits-IsCounted d st.walks i ego p.walk hits p.found head p.counted);
          stored =
              rw (p.found, update_walk_bookkeeping)
                (IsStored-visits st _ (
                  IsStored-back st i p.walk p.found p.stored
                    (λ e inside. inr (rw (p.mine e inside) head))));
        },
        rw (p.found, update_walk_bookkeeping) (Frame-visits i before st _ p.frame),
      )
