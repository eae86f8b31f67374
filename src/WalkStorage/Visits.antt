-- ===== src/WalkStorage/Visits.antt =====
-- core/src/walk_storage.rs: the table of visits, read at a node and a walk.
use meritrank_rust.Prelude.{
  ℕ, ◌+◌, ◌-◌, ◌≡◌, refl, ap, inl, inr, List, [], ◌∷◌, Option, none, some, false, ◌&&◌,
  if◌then◌else◌, ◌==◌, unwrap_or, arith, length, get_elem?, replicate, contains, find_index, after,
  first_some, after-next, Option-cases, Bool-cases, get_elem?_lt_some, get_elem?_ge_none,
  length-append, length-replicate, get_elem?-set, get_elem?-append, get_elem?-replicate,
}
use meritrank_rust.Prelude.IntMap
use meritrank_rust.Prelude.IntMap.{IntMap, get-insert, get-remove}
use meritrank_rust.WalkStorage.{
  forget_visit, forget_visits, grow, or_insert, note_visit, note_visits, forget_cut,
}

-- The position of the first visit of a walk to a node, as the table has it.
abbrev pub visit_of : List (IntMap ℕ) → ℕ → ℕ → Option ℕ
visit_of visits node walk_id = elim (get_elem? visits node) [
  | none ↦ none
  | some m ↦ IntMap.get walk_id m
]

module _ (walk_id j k : ℕ) where
  visit_of-forget_visit :
      (visits : List (IntMap ℕ)) (node : ℕ)
      → visit_of (forget_visit visits walk_id node) j k
        ≡ (if node == j && walk_id == k then none else visit_of visits j k)
  unfolding forget_visit
  visit_of-forget_visit visits node = elim (Option-cases (get_elem? visits node)) [
    | inl e ↦ ground (arith, e)
    | inr (m, e) ↦ ground (
      arith,
      e,
      get_elem?-set visits node j m (IntMap.remove walk_id m) e,
      get-remove k walk_id m,
    )
  ]

  pub visit_of-forget_visits :
      (visits : List (IntMap ℕ)) (nodes : List ℕ)
      → visit_of (forget_visits visits walk_id nodes) j k
        ≡ (if contains nodes j && walk_id == k then none else visit_of visits j k)
  unfolding forget_visits
  visit_of-forget_visits visits [] = refl
  visit_of-forget_visits visits (node ∷ nodes) = ground (
    arith,
    visit_of-forget_visits (forget_visit visits walk_id node) nodes,
    visit_of-forget_visit visits node,
  )

  pub visit_of-forget_cut :
      (visits : List (IntMap ℕ)) (kept nodes : List ℕ)
      → visit_of (forget_cut visits walk_id kept nodes) j k ≡ (
          if contains nodes j && (if contains kept j then false else walk_id == k)
          then none
          else visit_of visits j k)
  unfolding forget_cut
  visit_of-forget_cut visits kept [] = refl
  visit_of-forget_cut visits kept (node ∷ nodes) = elim (Bool-cases (contains kept node)) [
    | inl e ↦ rw (e, forget_cut) (ground (arith, e, visit_of-forget_cut visits kept nodes))
    | inr e ↦
        rw (e, forget_cut)
          (ground (
            arith,
            e,
            visit_of-forget_cut (forget_visit visits walk_id node) kept nodes,
            visit_of-forget_visit visits node,
          ))
  ]

  visit_of-grow :
      (visits : List (IntMap ℕ)) (node : ℕ) → visit_of (grow visits node) j k ≡ visit_of visits j k
  visit_of-grow visits node = ground (
    arith,
    get_elem?-append visits (replicate (node + 1 - length visits) []) j,
    get_elem?-replicate {A = IntMap ℕ} (node + 1 - length visits) [] (j - length visits),
    get_elem?_ge_none visits j,
  )

  grow_has :
      (visits : List (IntMap ℕ)) (node : ℕ)
      → (m : IntMap ℕ) × (get_elem? (grow visits node) node ≡ some m)
  grow_has visits node = get_elem?_lt_some (grow visits node) node (
      omega (
        arith,
        length-append visits (replicate (node + 1 - length visits) []),
        length-replicate {A = IntMap ℕ} (node + 1 - length visits) [],
      ))

  visit_of-or_insert :
      (m : IntMap ℕ) (pos : ℕ)
      → IntMap.get k (or_insert walk_id pos m)
        ≡ (if walk_id == k then some (unwrap_or (IntMap.get k m) pos) else IntMap.get k m)
  visit_of-or_insert m pos = elim (Option-cases (IntMap.get walk_id m)) [
    | inl e ↦ ground (arith, e, get-insert k walk_id pos m)
    | inr (p, e) ↦ ground (arith, e)
  ]

  visit_of-note_visit :
      (visits : List (IntMap ℕ)) (node pos : ℕ)
      → visit_of (note_visit visits walk_id pos node) j k ≡ (
          if node == j && walk_id == k
          then some (unwrap_or (visit_of visits j k) pos)
          else visit_of visits j k)
  unfolding note_visit
  visit_of-note_visit visits node pos =
      let (m, e) = grow_has visits node in
      ground (
        arith,
        e,
        get_elem?-set (grow visits node) node j m (or_insert walk_id pos m) e,
        visit_of-or_insert m pos,
        visit_of-grow visits node,
      )

  -- Noting the nodes from a position on leaves what is noted, and adds each first visit that is new.
  pub visit_of-note_visits :
      (visits : List (IntMap ℕ)) (pos : ℕ) (nodes : List ℕ)
      → visit_of (note_visits visits walk_id pos nodes) j k ≡ (
          if walk_id == k
          then first_some (visit_of visits j k) (after pos (find_index j nodes))
          else visit_of visits j k)
  unfolding note_visits
  visit_of-note_visits visits pos [] = elim (Option-cases (visit_of visits j k)) [
    | inl e ↦ ground (arith, e)
    | inr (p, e) ↦ ground (arith, e)
  ]
  visit_of-note_visits visits pos (node ∷ nodes) = ground (
    arith,
    visit_of-note_visits (note_visit visits walk_id pos node) (pos + 1) nodes,
    visit_of-note_visit visits node pos,
    after-next pos (find_index j nodes),
    joined (visit_of visits j k) pos,
  )
    where
      joined : (o : Option ℕ) (p : ℕ) → some (unwrap_or o p) ≡ first_some o (some (p + 0))
      joined none p = ap some (omega arith)
      joined (some q) p = refl
