-- ===== src/WalkStorage/Additions.antt =====
-- core/src/walk_storage.rs: which walks the addition of an edge affects, and where.
use meritrank_rust.Prelude.{
  ℕ, zero, suc, ◌+◌, ◌<◌, ◌≡◌, refl, sym, subst, ◌∙◌, inl, inr, List, [], ◌∷◌, Option, none, some,
  Bool, true, false, ◌&&◌, ◌==◌, arith, length, ltb, drop, Bool-cases, if◌then◌else◌,
}
use meritrank_rust.Deps.{Deps}
use meritrank_rust.Errors.{ok}
use meritrank_rust.RandomWalk.{RandomWalk}
use meritrank_rust.WalkStorage.{
  roll, prob_at, scan_addition, decide_skip_invalidation_on_edge_addition,
}

module _ (d : Deps) where
  -- Before the mark of a walk the first probability holds, and from it on the second.
  abbrev pub side_prob : Option ℕ → d.F × d.F → ℕ → d.F
  side_prob none (before, behind) pos = before
  side_prob (some start) (before, behind) pos = if ltb pos start then before else behind

module _ (d : Deps) (mark : Option ℕ) (probs : d.F × d.F) (node : ℕ) where
  -- The edge's source is visited where its probability is positive, so a number is drawn.
  abbrev pub draws_at : ℕ → ℕ → Bool
  draws_at pos x = x == node && d.lt d.zero (side_prob d mark probs pos)

  abbrev pub passed : ℕ → ℕ → d.rng.State → d.rng.State
  passed pos x s = if draws_at pos x then (d.rng.random s).1 else s

  -- The generator after the first `n` nodes.
  abbrev pub after : d.rng.State → ℕ → List ℕ → ℕ → d.rng.State
  after s pos [] n = s
  after s pos (x ∷ xs) zero = s
  after s pos (x ∷ xs) (suc n) = after (passed pos x s) (suc pos) xs n

  -- Whether a number is drawn at the `i`-th node, and is less than the probability there.
  abbrev pub hits_at : d.rng.State → ℕ → List ℕ → ℕ → Bool
  hits_at s pos [] i = false
  hits_at s pos (x ∷ xs) zero =
      draws_at pos x && d.lt (d.rng.random s).0 (side_prob d mark probs pos)
  hits_at s pos (x ∷ xs) (suc i) = hits_at (passed pos x s) (suc pos) xs i

  -- The last visit, or what was given.
  abbrev pub last_visit : ℕ → ℕ → List ℕ → ℕ
  last_visit last pos [] = last
  last_visit last pos (x ∷ xs) = last_visit (if x == node then pos else last) (suc pos) xs

  -- The walk is skipped exactly if no visit is hit, and is cut at the first that is.
  abbrev pub DecidesHit : d.rng.State → ℕ → ℕ → List ℕ → d.rng.State × (Bool × ℕ) → Type 0
  DecidesHit s last pos xs (left, (true, at)) =
      (at ≡ last_visit last pos xs)
      × ((i : ℕ) → hits_at s pos xs i ≡ false)
      × (left ≡ after s pos xs (length xs))
  DecidesHit s last pos xs (left, (false, at)) =
      (k : ℕ) × (at ≡ pos + k)
      × (hits_at s pos xs k ≡ true)
      × ((i : ℕ) → i < k → hits_at s pos xs i ≡ false)
      × (left ≡ after s pos xs (suc k))

  DecidesHit-cons :
      (s : d.rng.State) (last pos x : ℕ) (xs : List ℕ) (r : d.rng.State × (Bool × ℕ))
      → hits_at s pos (x ∷ xs) zero ≡ false
      → DecidesHit (passed pos x s) (if x == node then pos else last) (suc pos) xs r
      → DecidesHit s last pos (x ∷ xs) r
  DecidesHit-cons s last pos x xs (left, (true, at)) e (p, none_hit, q) = (p, step, q)
    where
      step : (i : ℕ) → hits_at s pos (x ∷ xs) i ≡ false
      step zero = e
      step (suc i) = none_hit i
  DecidesHit-cons s last pos x xs (left, (false, at)) e (k, p, hit, first, q) =
      (suc k, omega arith, hit, step, q)
    where
      step : (i : ℕ) → i < suc k → hits_at s pos (x ∷ xs) i ≡ false
      step zero h = e
      step (suc i) h = first i (omega arith)

  DecidesHit-next :
      (s t : d.rng.State) (last visit pos x : ℕ) (xs : List ℕ) (r : d.rng.State × (Bool × ℕ))
      → hits_at s pos (x ∷ xs) zero ≡ false
      → passed pos x s ≡ t
      → (if x == node then pos else last) ≡ visit
      → DecidesHit t visit (suc pos) xs r
      → DecidesHit s last pos (x ∷ xs) r
  DecidesHit-next s t last visit pos x xs r e to_t to_visit h =
      DecidesHit-cons s last pos x xs r e (
        subst (λ u. DecidesHit u (if x == node then pos else last) (suc pos) xs r) (sym to_t)
          (subst (λ v. DecidesHit t v (suc pos) xs r) (sym to_visit) h))

  after_none : (s : d.rng.State) (pos : ℕ) (xs : List ℕ) → s ≡ after s pos xs zero
  after_none s pos [] = refl
  after_none s pos (x ∷ xs) = refl

  DecidesHit-here :
      (s : d.rng.State) (last pos x : ℕ) (xs : List ℕ) (t : d.rng.State)
      → hits_at s pos (x ∷ xs) zero ≡ true
      → passed pos x s ≡ t
      → DecidesHit s last pos (x ∷ xs) (t, (false, pos))
  DecidesHit-here s last pos x xs t e to_t =
      (0, omega arith, e, λ i h. absurd (omega arith), sym to_t ∙ after_none _ (suc pos) xs)

module _ (d : Deps) where
  prob_at-side_prob :
      (mark : Option ℕ) (nodes : List ℕ) (probs : d.F × d.F) (pos : ℕ)
      → prob_at d (record { nodes = nodes; negative_segment_start = mark }) probs pos
        ≡ side_prob d mark probs pos
  prob_at-side_prob none nodes (before, behind) pos = refl
  prob_at-side_prob (some start) nodes (before, behind) pos = ground arith

  module _ (walk : RandomWalk) (probs : d.F × d.F) (node : ℕ) where
    -- The test of one visit, by its three outcomes.
    rolled :
        (s : d.rng.State) (pos : ℕ)
        → let p = side_prob d walk.negative_segment_start probs pos in
          let r = roll d s (prob_at d walk probs pos) in
          (r.1 ≡ (d.lt d.zero p && d.lt (d.rng.random s).0 p))
          × (r.0 ≡ (if d.lt d.zero p then (d.rng.random s).1 else s))
    unfolding roll
    rolled s pos =
        rw (prob_at-side_prob walk.negative_segment_start walk.nodes probs pos)
          (elim (Bool-cases (d.lt d.zero (side_prob d walk.negative_segment_start probs pos))) [
            | inl e ↦ rw e (refl, refl)
            | inr e ↦ rw e (refl, refl)
          ])

    visit_hits :
        (s : d.rng.State) (pos x : ℕ) (xs : List ℕ)
        → x == node ≡ true
        → let p = side_prob d walk.negative_segment_start probs pos in
          hits_at d walk.negative_segment_start probs node s pos (x ∷ xs) zero
          ≡ (d.lt d.zero p && d.lt (d.rng.random s).0 p)
    visit_hits s pos x xs e = rw e refl

    visit_passed :
        (s : d.rng.State) (pos x : ℕ)
        → x == node ≡ true
        → passed d walk.negative_segment_start probs node pos x s ≡ (
            if d.lt d.zero (side_prob d walk.negative_segment_start probs pos)
            then (d.rng.random s).1
            else s)
    visit_passed s pos x e = rw e refl

    scan_addition-DecidesHit :
        (s : d.rng.State) (pos new_pos : ℕ) (xs : List ℕ)
        → DecidesHit d walk.negative_segment_start probs node s new_pos pos xs
            (scan_addition d walk probs node s pos new_pos xs)
    unfolding scan_addition
    scan_addition-DecidesHit s pos new_pos [] = (refl, λ i. refl, refl)
    scan_addition-DecidesHit s pos new_pos (x ∷ xs) = elim (Bool-cases (x == node)) [
      | inr e ↦
          rw (e, scan_addition)
            (DecidesHit-next d walk.negative_segment_start probs node s s new_pos new_pos pos x xs _
              (ground arith) (ground arith) (ground arith)
              (scan_addition-DecidesHit s (suc pos) new_pos xs))
      | inl e ↦
          let mark = walk.negative_segment_start in
          let r = roll d s (prob_at d walk probs pos) in
          let (test, left) = rolled s pos in
          elim (Bool-cases (r.1)) [
            | inl hit ↦
                rw (e, scan_addition)
                  (rw hit (
                    DecidesHit-here d mark probs node s new_pos pos x xs r.0
                      (visit_hits s pos x xs e ∙ sym test ∙ hit)
                      (visit_passed s pos x e ∙ sym left)))
            | inr miss ↦
                rw (e, scan_addition)
                  (rw miss (
                    DecidesHit-next d mark probs node s r.0 new_pos pos pos x xs _
                      (visit_hits s pos x xs e ∙ sym test ∙ miss)
                      (visit_passed s pos x e ∙ sym left) (ground arith)
                      (scan_addition-DecidesHit r.0 (suc pos) pos xs)))
          ]
    ]

    -- For a position within the walk, `decide_skip_invalidation_on_edge_addition` returns ok. At
    -- each visit of the edge's source from there on whose probability, the first before the walk's
    -- mark and the second from it on, is positive, a value is drawn, and the visit is hit if that
    -- is less than the probability. The walk is cut at the first visit that is hit, and skipped
    -- exactly if none is, with its last visit or else the position given; the generator has drawn
    -- once for each visit of positive probability up to the hit or, without one, for all of them.
    pub decide_skip_on_addition-DecidesHit :
        (pos to : ℕ) (s : d.rng.State)
        → pos < length walk.nodes
        → (left : d.rng.State) × (r : Bool × ℕ) × (decide_skip_invalidation_on_edge_addition d walk
              pos
              (node, to)
              probs
              s
            ≡ (left, ok r))
          × DecidesHit d walk.negative_segment_start probs node s pos pos
              (drop pos walk.nodes)
              (left, r)
    unfolding decide_skip_invalidation_on_edge_addition
    decide_skip_on_addition-DecidesHit pos to s h =
        let scan = scan_addition d walk probs node s pos pos (drop pos walk.nodes) in
        (scan.0, scan.1, ground arith, scan_addition-DecidesHit s pos pos (drop pos walk.nodes))
