-- ===== src/Rank/Exact/SetEdge.antt =====
-- core/src/rank.rs: `set_edge` keeps the counters, the table of visits and the blocks exact.
pub mod Redraw
pub mod Whole
use meritrank_rust.Prelude.{
  ℕ, zero, suc, ◌+◌, ◌≤◌, ◌≡◌, refl, sym, ◌∙◌, ap, inl, inr, List, [], ◌∷◌, ◌++◌, Option, none,
  some, Bool, true, false, if◌then◌else◌, ◌==◌, arith, length, head?, take, drop, get_elem?, set,
  subst, find_index, get_elem?-set, get_elem?-set_self, Bool-cases, lt-length_of_get_elem?,
  length-take, ltb,
}
use mathlib.Core.List.{append-nil}
use meritrank_rust.Errors.{ok, panic}
use meritrank_rust.RandomWalk.{RandomWalk, new, split_from, kept_start, moved_start}
use meritrank_rust.WalkStorage.{
  WalkStorage, Hits, get_walk, put_walk, split_and_remove_from_bookkeeping, forget_cut,
}
use meritrank_rust.WalkStorage.Visits.{visit_of}
use meritrank_rust.WalkStorage.Index.{
  first_visit, IsIndexed, split_and_remove_from_bookkeeping-IsIndexed,
}
use meritrank_rust.Rank.Exact.{InBlock, IsStored, IsExact, IsCounted}
use meritrank_rust.Rank.Exact.Blocks.{set-set, IsStored-put, Owns}
use meritrank_rust.Rank.Exact.Pending.{IsPending, IsStored-visits, Frame-put, Frame-refl}

pub head?-take : (n x : ℕ) (xs : List ℕ) → head? xs ≡ some x → head? (take (n + 1) xs) ≡ some x
head?-take n x [] h = cc
head?-take n x (y ∷ xs) h = ground (arith, h)

no_head : (ns : List ℕ) (ego : ℕ) → ns ≡ [] → head? ns ≡ some ego → ⊥
no_head [] ego e h = cc
no_head (n ∷ ns) ego e h = cc

module _ (st : WalkStorage) (hits : Hits) (i ego at : ℕ) (walk : RandomWalk)
    (found : get_walk st i ≡ some walk) where
  split_past_end :
      ltb (length walk.nodes) at ≡ true → (split_and_remove_from_bookkeeping st i at).1 ≡ panic
  unfolding split_and_remove_from_bookkeeping split_from
  split_past_end h = rw (found, split_and_remove_from_bookkeeping) (rw h refl)

  abbrev kept : RandomWalk
  kept = record {
    nodes = take at walk.nodes;
    negative_segment_start = kept_start at walk.negative_segment_start;
  }

  abbrev cut : RandomWalk
  cut = record {
    nodes = drop at walk.nodes;
    negative_segment_start = moved_start at walk.negative_segment_start;
  }

  abbrev cut_store : WalkStorage
  cut_store = record st {
    walks = set st.walks i kept;
    visits = forget_cut st.visits i kept.nodes cut.nodes;
  }

  split_within :
      ltb (length walk.nodes) at ≡ false
      → split_and_remove_from_bookkeeping st i at ≡ (cut_store, ok tt)
  unfolding split_and_remove_from_bookkeeping split_from
  split_within h = rw (found, split_and_remove_from_bookkeeping) (rw h refl)

  -- A walk whose counts were taken back is pending once it is cut.
  pub split-IsPending :
      head? walk.nodes ≡ some ego
      → IsIndexed st
      → IsCounted (set st.walks i new) hits
      → IsStored st
      → (split_and_remove_from_bookkeeping st i at).1 ≡ ok tt
      → (at ≤ length walk.nodes)
        × IsPending i ego
            (take at walk.nodes)
            (take at walk.nodes)
            st
            (split_and_remove_from_bookkeeping st i at).0
            hits
  split-IsPending head indexed counted stored done =
      elim (Bool-cases (ltb (length walk.nodes) at)) [
        | inl e ↦ cc (split_past_end e)
        | inr e ↦
            let back : set (set st.walks i kept) i new ≡ set st.walks i new =
              set-set st.walks i kept new in
            let index : IsIndexed cut_store =
              rw (split_within e) at
                (split_and_remove_from_bookkeeping-IsIndexed st i at indexed) in
            (
              ground arith,
              rw (split_within e) (record {
                walk = kept;
                found =
                    get_elem?-set_self st.walks i kept
                      (lt-length_of_get_elem? st.walks i walk found);
                more = [];
                grown = sym (append-nil (take at walk.nodes));
                visited = λ node k.
                    ground (arith, index node k, get_elem?-set st.walks i k walk kept found);
                counted = subst (λ ws. IsCounted ws hits) (sym back) counted;
                stored = IsStored-visits (put_walk (put_walk st i kept) i new) _ (
                    subst (λ ws. IsStored (record st { walks = ws })) (sym back)
                      (IsStored-put st i walk new found stored (λ e' inside. inl refl)));
                frame = Frame-put i st st walk kept _ found (Frame-refl i st);
                mine = λ e' inside. elim (stored.owned e' i walk inside found) [
                  | inl empty ↦ absurd (no_head walk.nodes ego empty head)
                  | inr head' ↦ ground arith
                ];
              }),
            )
      ]
