-- ===== src/Graph/Walks/Trail.antt =====
-- What a drawn segment should be: a trail along the edges of the graph with at most one negative
-- step, the mark standing at it.
use meritrank_rust.Prelude.{
  ℕ, suc, ◌+◌, ◌≡◌, refl, sym, ◌∙◌, ap, ◌⊎◌, inl, inr, List, [], ◌∷◌, ◌++◌, map, Option, none, some,
  Bool, true, false, if◌then◌else◌, ◌==◌, ==_iff, is_some, arith, length, next, get_elem?-set,
  length-set, last?,
}
use meritrank_rust.Deps.{Deps}
use meritrank_rust.Graph.Node.{NodeData, weight_to}
use meritrank_rust.Graph.Node.Laws.{IsNode}
use meritrank_rust.Graph.Node.Choice.{HasEdge, SameEdges}
use meritrank_rust.Graph.Edges.{Graph, get_node_data, put}
use meritrank_rust.Graph.Edges.Invariant.{weight_at, inbound_at, IsGraph, AllNodes}

module _ (d : Deps) where
  abbrev pub sign_of : Option (NodeData d) → ℕ → Option Bool
  sign_of none x = none
  sign_of (some n) x =
      if is_some (d.edges.get x n.pos_edges)
      then some true
      else if is_some (d.edges.get x n.neg_edges)
      then some false
      else none

  -- Whether there is an edge, and its sign.
  abbrev pub sign_at : Graph d → ℕ → ℕ → Option Bool
  sign_at g i x = sign_of (get_node_data d g i) x

  pub sign_at_of_edge :
      (g : Graph d) (i x : ℕ) (b : Bool) (n : NodeData d)
      → get_node_data d g i ≡ some n
      → IsNode d n
      → HasEdge d n x b
      → sign_at g i x ≡ some b
  sign_at_of_edge g i x true n e p h = ground arith
  sign_at_of_edge g i x false n e p h = ground (arith, p.exclusive x)

  -- An edge has a weight, so its target is another node of the graph.
  pub sign_at_target :
      (g : Graph d) (i x : ℕ) (b : Bool)
      → IsGraph d g
      → sign_at g i x ≡ some b
      → ((i == x) ≡ false) × (is_some (get_node_data d g x) ≡ true)
  unfolding weight_to
  sign_at_target g i x b p h = ground (arith, p.loopless i, p.mirror i x)

  -- A node without its cached distributions.
  abbrev pub stripped : Option (NodeData d) → Option (NodeData d)
  stripped none = none
  stripped (some n) = some (record n { abs_distr_cache = none; pos_distr_cache = none })

  pub stripped_same : (m n : NodeData d) → SameEdges d m n → stripped (some m) ≡ stripped (some n)
  stripped_same m n q = rw (q.pos, q.neg, q.inbound, q.pos_total, q.neg_total) refl

  -- Two graphs that differ in cached distributions only: `alike` says all of it, the edges with their
  -- order and the sums included; the other fields are what the proofs use.
  pub record SameGraph (g' g : Graph d) : Type 0 where
    pub alike : (i : ℕ) → stripped (get_node_data d g' i) ≡ stripped (get_node_data d g i)
    pub size : length g'.nodes ≡ length g.nodes
    pub signs : (i x : ℕ) → sign_at g' i x ≡ sign_at g i x
    pub weights : (i x : ℕ) → weight_at d g' i x ≡ weight_at d g i x
    pub inbound : (i x : ℕ) → inbound_at d g' i x ≡ inbound_at d g i x
    pub valid : AllNodes d g → AllNodes d g'

  pub SameGraph-refl : (g : Graph d) → SameGraph g g
  SameGraph-refl g = record {
    alike = λ i. refl;
    size = refl;
    signs = λ i x. refl;
    weights = λ i x. refl;
    inbound = λ i x. refl;
    valid = λ p. p;
  }

  pub SameGraph-trans : (g'' g' g : Graph d) → SameGraph g'' g' → SameGraph g' g → SameGraph g'' g
  SameGraph-trans g'' g' g p q = record {
    alike = λ i. p.alike i ∙ q.alike i;
    size = p.size ∙ q.size;
    signs = λ i x. p.signs i x ∙ q.signs i x;
    weights = λ i x. p.weights i x ∙ q.weights i x;
    inbound = λ i x. p.inbound i x ∙ q.inbound i x;
    valid = λ v. p.valid (q.valid v);
  }

  pub SameGraph-IsGraph : (g' g : Graph d) → SameGraph g' g → IsGraph d g → IsGraph d g'
  SameGraph-IsGraph g' g q p = record {
    nodes_valid = q.valid p.nodes_valid;
    loopless = λ i. q.weights i i ∙ p.loopless i;
    mirror = λ i j. q.inbound j i ∙ p.mirror i j ∙ sym (q.weights i j);
  }

  stripped_put :
      (b : Bool) (o : Option (NodeData d)) (n n' : NodeData d)
      → SameEdges d n' n
      → (b ≡ true → some n ≡ o)
      → stripped (if b then some n' else o) ≡ stripped o
  stripped_put true o n n' q h = stripped_same n' n q ∙ ap stripped (h refl)
  stripped_put false o n n' q h = refl

  -- Writing back a node after a choice.
  pub SameGraph-put :
      (g : Graph d) (i : ℕ) (n n' : NodeData d)
      → get_node_data d g i ≡ some n
      → IsNode d n'
      → SameEdges d n' n
      → SameGraph (put d g i n') g
  unfolding weight_to
  SameGraph-put g i n n' e v q = record {
    alike = λ j.
        ap stripped (get_elem?-set g.nodes i j n n' e)
        ∙ stripped_put (i == j) (get_node_data d g j) n n' q
            (λ same. sym e ∙ ap (get_node_data d g) ((==_iff i j).0 same));
    size = length-set g.nodes i n';
    signs = λ j x. ground (arith, get_elem?-set g.nodes i j n n' e, q.pos, q.neg);
    weights = λ j x. ground (arith, get_elem?-set g.nodes i j n n' e, q.pos, q.neg);
    inbound = λ j x. ground (arith, get_elem?-set g.nodes i j n n' e, q.inbound);
    valid = λ p j m h. ground (arith, get_elem?-set g.nodes i j n n' e, p j m);
  }

abbrev pub Steps : Type 0
Steps = List (ℕ × Bool)

abbrev pub end_of : ℕ → Steps → ℕ
end_of a [] = a
end_of a ((x, b) ∷ steps) = end_of x steps

abbrev pub first_negative : Steps → Option ℕ
first_negative [] = none
first_negative ((x, true) ∷ steps) = next (first_negative steps)
first_negative ((x, false) ∷ steps) = some 0

abbrev pub negatives : Steps → ℕ
negatives [] = 0
negatives ((x, true) ∷ steps) = negatives steps
negatives ((x, false) ∷ steps) = suc (negatives steps)

abbrev pub visited : Steps → List ℕ
visited = map (λ s. s.0)

pub end_of-snoc : (a x : ℕ) (b : Bool) (steps : Steps) → end_of a (steps ++ (x, b) ∷ []) ≡ x
end_of-snoc a x b [] = refl
end_of-snoc a x b ((y, c) ∷ steps) = end_of-snoc y x b steps

pub visited-snoc :
    (x : ℕ) (b : Bool) (steps : Steps) → visited (steps ++ (x, b) ∷ []) ≡ visited steps ++ x ∷ []
visited-snoc x b [] = refl
visited-snoc x b ((y, c) ∷ steps) = ap (◌∷◌ y) (visited-snoc x b steps)

pub negatives-snoc :
    (x : ℕ) (b : Bool) (steps : Steps)
    → negatives (steps ++ (x, b) ∷ []) ≡ negatives steps + (if b then 0 else 1)
negatives-snoc x true [] = omega arith
negatives-snoc x false [] = omega arith
negatives-snoc x b ((y, true) ∷ steps) = negatives-snoc x b steps
negatives-snoc x b ((y, false) ∷ steps) = omega (arith, negatives-snoc x b steps)

pub first_negative-snoc_positive :
    (x : ℕ) (steps : Steps) → first_negative (steps ++ (x, true) ∷ []) ≡ first_negative steps
first_negative-snoc_positive x [] = refl
first_negative-snoc_positive x ((y, true) ∷ steps) = ap next (first_negative-snoc_positive x steps)
first_negative-snoc_positive x ((y, false) ∷ steps) = refl

pub first_negative-snoc_negative :
    (x : ℕ) (steps : Steps)
    → negatives steps ≡ 0
    → (first_negative steps ≡ none)
      × (first_negative (steps ++ (x, false) ∷ []) ≡ some (length (visited steps)))
first_negative-snoc_negative x [] h = (refl, refl)
first_negative-snoc_negative x ((y, true) ∷ steps) h =
    let ih = first_negative-snoc_negative x steps h in (ap next ih.0, ap next ih.1)
first_negative-snoc_negative x ((y, false) ∷ steps) h = absurd (omega arith)

pub last-visited :
    (a : ℕ) (steps : Steps) → (visited steps ≡ []) ⊎ (last? (visited steps) ≡ some (end_of a steps))
last-visited a [] = inl refl
last-visited a ((x, b) ∷ []) = inr refl
last-visited a ((x, b) ∷ (y, c) ∷ steps) = elim (last-visited x ((y, c) ∷ steps)) [
  | inl e ↦ absurd (ground arith)
  | inr e ↦ inr e
]

module _ (d : Deps) where
  -- Every step goes along an edge of its sign.
  abbrev pub Trail : Graph d → ℕ → Steps → Type 0
  Trail g a [] = Unit {0}
  Trail g a ((x, b) ∷ steps) = (sign_at d g a x ≡ some b) × Trail g x steps

  pub Trail-snoc :
      (g : Graph d) (a x : ℕ) (b : Bool) (steps : Steps)
      → Trail g a steps
      → sign_at d g (end_of a steps) x ≡ some b
      → Trail g a (steps ++ (x, b) ∷ [])
  Trail-snoc g a x b [] t h = (h, tt)
  Trail-snoc g a x b ((y, c) ∷ steps) t h = (t.0, Trail-snoc g y x b steps t.1 h)
