-- ===== src/Rank/Exact/Blocks.antt =====
-- core/src/walk_storage.rs: the blocks of slots, under a change of one walk and a new block.
use meritrank_rust.Prelude.{
  ℕ, zero, suc, ◌+◌, ◌-◌, ◌≤◌, ◌<◌, ◌≡◌, refl, sym, ◌∙◌, ap, ◌⊎◌, inl, inr, List, [], ◌∷◌, ◌++◌,
  none, some, Bool, false, ◌==◌, arith, length, head?, set, replicate, subst, length-set,
  length-append, length-replicate, get_elem?-set, get_elem?-append, get_elem?-replicate, set_self,
  Bool-cases, Option-cases, lt-length_of_get_elem?, get_elem?_lt_some,
}
use meritrank_rust.Prelude.IntMap
use meritrank_rust.RandomWalk.{RandomWalk, new}
use meritrank_rust.Counter.{get_count}
use meritrank_rust.WalkStorage.{
  WalkStorage, Hits, get_walk, put_walk, get_block_start, ensure_block_for_ego,
}
use meritrank_rust.WalkStorage.Index.{ensure_block_for_ego-IsIndexed}
use meritrank_rust.Rank.Exact.{InBlock, IsStored, IsExact, tally, hits_before, hits_behind}

pub set-set {ℓ} : {A : Type ℓ} (xs : List A) (i : ℕ) (u v : A) → set (set xs i u) i v ≡ set xs i v
set-set [] i u v = refl
set-set (x ∷ xs) zero u v = refl
set-set (x ∷ xs) (suc i) u v = ap (◌∷◌ x) (set-set xs i u v)

-- What may stand in a slot of an ego's block.
abbrev pub Owns : ℕ → RandomWalk → Type 0
Owns ego w = (w.nodes ≡ []) ⊎ (head? w.nodes ≡ some ego)

pub IsStored-put :
    (st : WalkStorage) (i : ℕ) (u v : RandomWalk)
    → get_walk st i ≡ some u
    → IsStored st
    → ((ego : ℕ) → InBlock st ego i → Owns ego v)
    → IsStored (put_walk st i v)
IsStored-put st i u v found p fits = record {
  owned = λ ego j w inside at. elim (Bool-cases (i == j)) [
    | inl same ↦
        let e : v ≡ w = ground (arith, get_elem?-set st.walks i j u v found) in
        let e' : i ≡ j = ground arith in
        subst (Owns ego) e (fits ego (subst (InBlock st ego) (sym e') inside))
    | inr other ↦ p.owned ego j w inside (ground (arith, get_elem?-set st.walks i j u v found))
  ];
  apart = p.apart;
  bounded = λ ego j inside. omega (arith, p.bounded ego j inside, length-set st.walks i v);
}

-- The walk of a slot that was set aside is put back.
pub IsStored-back :
    (st : WalkStorage) (i : ℕ) (u : RandomWalk)
    → get_walk st i ≡ some u
    → IsStored (put_walk st i new)
    → ((ego : ℕ) → InBlock st ego i → Owns ego u)
    → IsStored st
IsStored-back st i u found p fits =
    let within = lt-length_of_get_elem? st.walks i u found in
    let (w, e) =
      get_elem?_lt_some (set st.walks i new) i (omega (arith, length-set st.walks i new)) in
    let back : set (set st.walks i new) i u ≡ st.walks =
      set-set st.walks i new u ∙ set_self st.walks i u found in
    subst (λ ws. IsStored (record st { walks = ws })) back
      (IsStored-put (put_walk st i new) i w u e p fits)

tally-append_empty :
    (test : RandomWalk → Bool) (ws : List RandomWalk) (n : ℕ)
    → test new ≡ false
    → tally test (ws ++ replicate n new) ≡ tally test ws
unfolding tally
tally-append_empty test [] zero h = refl
tally-append_empty test [] (suc n) h = ground (arith, tally-append_empty test [] n h)
tally-append_empty test (w ∷ ws) n h = omega (arith, tally-append_empty test ws n h)

module _ (st : WalkStorage) (ego : ℕ) (absent : get_block_start st ego ≡ none) where
  abbrev grown : WalkStorage
  grown = record st {
    walks = st.walks ++ replicate st.walks_per_ego new;
    ego_blocks = IntMap.insert ego (length st.walks) st.ego_blocks;
  }

  -- The slots of a block are old ones, or those at the end, which are the ego's.
  in_grown :
      (e i : ℕ)
      → IsStored st
      → InBlock grown e i
      → (InBlock st e i × (i < length st.walks) × ((ego == e) ≡ false))
        ⊎ ((e ≡ ego) × (length st.walks ≤ i) × (i < length st.walks + st.walks_per_ego))
  in_grown e i p (start, at, low, high) = elim (Bool-cases (ego == e)) [
    | inl same ↦
        let e' : e ≡ ego = ground arith in
        let s : start ≡ length st.walks =
          ground (arith, IntMap.get-insert e ego (length st.walks) st.ego_blocks) in
        inr (e', omega arith, omega arith)
    | inr other ↦
        let inside : InBlock st e i = (
          start,
          ground (arith, IntMap.get-insert e ego (length st.walks) st.ego_blocks),
          low,
          high,
        ) in
        inl (inside, p.bounded e i inside, other)
  ]

  grown-IsStored : IsStored st → IsStored grown
  grown-IsStored p = record {
    owned = λ e i w inside at. elim (in_grown e i p inside) [
      | inl (old, within, _) ↦
          p.owned e i w old
            (ground (arith, get_elem?-append st.walks (replicate st.walks_per_ego new) i))
      | inr (e', low, high) ↦ inl (
          ground (
            arith,
            get_elem?-append st.walks (replicate st.walks_per_ego new) i,
            get_elem?-replicate st.walks_per_ego new (i - length st.walks),
          ))
    ];
    apart = λ e e' i inside inside'. elim (in_grown e i p inside) [
      | inl (old, within, _) ↦ elim (in_grown e' i p inside') [
        | inl (old', _, _) ↦ p.apart e e' i old old'
        | inr (_, low, _) ↦ absurd (omega arith)
      ]
      | inr (same, low, _) ↦ elim (in_grown e' i p inside') [
        | inl (_, within, _) ↦ absurd (omega arith)
        | inr (same', _, _) ↦ same ∙ sym same'
      ]
    ];
    bounded = λ e i inside. elim (in_grown e i p inside) [
      | inl (_, within, _) ↦
          omega (arith, length-append {0} st.walks (replicate st.walks_per_ego new))
      | inr (_, _, high) ↦ omega (
        arith,
        length-append {0} st.walks (replicate st.walks_per_ego new),
        length-replicate {0} st.walks_per_ego new,
      )
    ];
  }

pub ensure_block_for_ego-IsExact :
    (st : WalkStorage) (hits : Hits) (ego : ℕ)
    → IsExact st hits
    → IsExact (ensure_block_for_ego st ego).0 hits
unfolding ensure_block_for_ego
ensure_block_for_ego-IsExact st hits ego p = elim (Option-cases (get_block_start st ego)) [
  | inr (s, e) ↦ rw (e, ensure_block_for_ego) p
  | inl e ↦
      rw (e, ensure_block_for_ego)
        (record {
          indexed =
              rw (e, ensure_block_for_ego) at (ensure_block_for_ego-IsIndexed st ego p.indexed);
          counted = record {
            before = λ e' node.
                p.counted.before e' node
                ∙ sym (tally-append_empty (hits_before e' node) st.walks st.walks_per_ego refl);
            behind = λ e' node.
                p.counted.behind e' node
                ∙ sym (tally-append_empty (hits_behind e' node) st.walks st.walks_per_ego refl);
          };
          stored = grown-IsStored st ego e p.stored;
        })
]

-- No walks, no counts, no blocks.
pub empty-IsExact :
    (n : ℕ)
    → IsExact
        (record { visits = []; walks = []; walks_per_ego = n; ego_blocks = [] })
        (record { pos_hits = []; neg_hits = [] })
unfolding tally get_count
empty-IsExact n = record {
  indexed = λ node walk_id. refl;
  counted = record { before = λ ego node. refl; behind = λ ego node. refl };
  stored = record {
    owned = λ ego i w inside at. cc;
    apart = λ ego other i (start, at, low, high) inside'. cc;
    bounded = λ ego i (start, at, low, high). cc;
  };
}
