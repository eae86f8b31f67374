-- ===== src/Service/AStar/Invariant.antt =====
-- service/src/utils/astar.rs: what holds of the slices and the state between two iterations.
use meritrank_rust.Prelude.{
  ne_test, ℕ, zero, suc, ◌+◌, ◌-◌, ◌≤◌, ◌<◌, ◌≡◌, refl, sym, ap, ◌∙◌, subst, inl, inr, List, none,
  some, Bool, true, false, if◌then◌else◌, ◌==◌, ==_iff, length, get_elem?, set, [], ◌∷◌, is_empty,
  arith, Bool-cases,
}
use meritrank_rust.Prelude.Partial.{
  Returns, some-Returns, bind-Returns, if-Returns, map-Returns, some_injective, IsWritten,
  get-Returns,
}
use meritrank_rust.Service.AStar.{
  Types, search_nearest, enum_neighbors, Status, progress, success, fail, out_of_memory, neighbor,
  Node, Search, init, first_node,
}
use meritrank_rust.Service.AStar.Steps.{nearest_from, find_id}

lt_of_ne : (n j : ℕ) → j < n + 1 → (n == j) ≡ false → j < n
lt_of_ne n j lt e = ground (arith, e, lt)

lt_either : (b : Bool) (m n : ℕ) → n < m → (if b then m else n) < m + 1
lt_either true m n h = omega arith
lt_either false m n h = omega arith

pub none-some {ℓ} : {A : Type ℓ} {a : A} → ¬ (none ≡ some a)
none-some e = cc

first_fits {ℓ} :
    {A : Type ℓ} (xs : List A) (x : A) → (if is_empty xs then 0 else 1) ≤ length (set xs 0 x)
first_fits [] x = omega arith
first_fits (y ∷ xs) x = omega arith

first_only {ℓ} :
    {A : Type ℓ} (xs : List A) (x : A) (i : ℕ) (z : A)
    → i < (if is_empty xs then 0 else 1)
    → get_elem? (set xs 0 x) i ≡ some z
    → x ≡ z
first_only [] x i z lt at = absurd (omega arith)
first_only (y ∷ xs) x zero z lt at = some_injective at
first_only (y ∷ xs) x (suc i) z lt at = absurd (omega arith)

module _ (t : Types) (Fits : Node t → Type 0) where
  -- Every node in the first `n` places of a slice fits.
  abbrev pub Holds : List (Node t) → ℕ → Type 0
  Holds xs n = (i : ℕ) → i < n → (x : Node t) → get_elem? xs i ≡ some x → Fits x

  pub Holds-write :
      (xs ys : List (Node t)) (i n : ℕ) (x : Node t)
      → Holds xs n
      → Fits x
      → IsWritten xs i x ys
      → Holds ys n
  Holds-write xs ys i n x h p w j lt y at = elim (Bool-cases (i == j)) [
    | inl e ↦
        subst Fits (some_injective (sym w.written ∙ ap (get_elem? ys) ((==_iff i j).0 e) ∙ at)) p
    | inr e ↦ h j lt y (sym (w.others j (λ f. ne_test i j e f)) ∙ at)
  ]

  pub Holds-push :
      (xs ys : List (Node t)) (n : ℕ) (x : Node t)
      → Holds xs n
      → Fits x
      → IsWritten xs n x ys
      → Holds ys (n + 1)
  Holds-push xs ys n x h p w j lt y at = elim (Bool-cases (n == j)) [
    | inl e ↦
        subst Fits (some_injective (sym w.written ∙ ap (get_elem? ys) ((==_iff n j).0 e) ∙ at)) p
    | inr e ↦ h j (lt_of_ne n j lt e) y (sym (w.others j (λ f. ne_test n j e f)) ∙ at)
  ]

  pub Holds-fewer : (xs : List (Node t)) (m n : ℕ) → m ≤ n → Holds xs n → Holds xs m
  Holds-fewer xs m n le h j lt = h j (omega arith)

  -- The places in use exist, and the nodes there fit; the closest node is a closed one.
  pub record IsStored (source destination : t.NodeId) (s : Search t) : Type 0 where
    pub from : s.state.source ≡ source
    pub to : s.state.destination ≡ destination
    pub open_fits : s.state.num_open ≤ length s.open_nodes
    pub closed_fits : s.state.num_closed ≤ length s.closed_nodes
    pub open_good : Holds s.open_nodes s.state.num_open
    pub closed_good : Holds s.closed_nodes s.state.num_closed
    pub node_good : (x : Node t) → s.state.node ≡ some x → Fits x
    pub closest : s.state.closest_index ≤ s.state.num_closed - 1

  -- Enumerating neighbours, there is a node to enumerate them of, and room to close two nodes.
  pub record IsEnumerating (s : Search t) (x : Node t) : Type 0 where
    pub current : s.state.node ≡ some x
    pub room : s.state.num_closed + 2 < length s.closed_nodes

  abbrev pub IsReady : Search t → Type 0
  IsReady s = s.state.stage ≡ enum_neighbors → (x : Node t) × IsEnumerating s x

  -- The closest node is the destination.
  pub record IsReached (s : Search t) : Type 0 where
    pub found : Node t
    pub place : get_elem? s.closed_nodes s.state.closest_index ≡ some found
    pub used : s.state.closest_index < s.state.num_closed
    pub destination : found.id ≡ s.state.destination

  -- What the search is like after an iteration that returned the status.
  abbrev pub After : Search t → Status t → Search t → Type 0
  After before progress s = s.state.stage ≡ search_nearest
  After before success s = IsReached s
  After before fail s = (s ≡ before) × (s.state.num_open ≡ 0)
  After before out_of_memory s = s ≡ before
  After before (neighbor r) s =
      (x : Node t) × IsEnumerating s x × (s.state.stage ≡ enum_neighbors) × (x.id ≡ r.node)

  pub nearest_from-Returns :
      (xs : List (Node t)) (left index nearest : ℕ)
      → index + left ≤ length xs
      → nearest < index
      → Returns (nearest_from t xs left index nearest) (λ i. i < index + left)
  unfolding nearest_from
  nearest_from-Returns xs zero index nearest fits lt = some-Returns _ (omega arith)
  nearest_from-Returns xs (suc left) index nearest fits lt =
      bind-Returns (get-Returns xs index (omega arith)) (λ node _.
        bind-Returns (get-Returns xs nearest (omega arith)) (λ near _.
          map-Returns
            (nearest_from-Returns xs left (index + 1) _ (omega arith)
              (lt_either _ index nearest lt))
            (λ i h. omega arith)))

  pub find_id-Returns :
      (xs : List (Node t)) (id : t.NodeId) (left index : ℕ)
      → index + left ≤ length xs
      → Returns (find_id t xs id left index) (λ r. (i : ℕ) → r ≡ some i → i < index + left)
  unfolding find_id
  find_id-Returns xs id zero index fits = some-Returns _ (λ i e. absurd (none-some e))
  find_id-Returns xs id (suc left) index fits =
      bind-Returns (get-Returns xs index (omega arith)) (λ node _.
        if-Returns (t.eq node.id id)
          (λ _. some-Returns (some index) (λ i e. let f = some_injective e in omega arith))
          (λ _.
            map-Returns (find_id-Returns xs id left (index + 1) (omega arith))
              (λ r h i e. let f = h i e in omega arith)))

  pub find-Returns :
      (xs : List (Node t)) (id : t.NodeId) (n : ℕ)
      → n ≤ length xs
      → Returns (find_id t xs id n 0) (λ r. (i : ℕ) → r ≡ some i → i < n)
  find-Returns xs id n fits =
      map-Returns (find_id-Returns xs id n 0 (omega arith))
        (λ r h i e. let below = h i e in omega arith)

  pub init-IsStored :
      (open_nodes closed_nodes : List (Node t)) (source destination : t.NodeId) (max_cost : t.Cost)
      → Fits (first_node t source max_cost)
      → IsStored source destination (record {
        open_nodes = (init t open_nodes source destination max_cost).0;
        closed_nodes = closed_nodes;
        state = (init t open_nodes source destination max_cost).1;
      })
  unfolding init
  init-IsStored open_nodes closed_nodes source destination max_cost fits = record {
    from = refl;
    to = refl;
    open_fits = first_fits open_nodes (first_node t source max_cost);
    closed_fits = omega arith;
    open_good = λ i lt x at.
        subst Fits (first_only open_nodes (first_node t source max_cost) i x lt at) fits;
    closed_good = λ i lt. absurd (omega arith);
    node_good = λ x e. absurd (none-some e);
    closest = omega arith;
  }

  -- How an iteration may end.
  abbrev pub Continues : (source destination : t.NodeId) → Search t → Search t × Status t → Type 0
  Continues source destination before (s, status) =
      IsStored source destination s × After before status s
