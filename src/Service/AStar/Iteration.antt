-- ===== src/Service/AStar/Iteration.antt =====
-- service/src/utils/astar.rs: `iteration` does not panic and keeps what holds between iterations.
use meritrank_rust.Prelude.{◌≡◌, refl, sym, subst, Option, none, some}
use meritrank_rust.Prelude.Partial.{Returns}
use meritrank_rust.Service.AStar.{Types, Stage, search_nearest, enum_neighbors, Node, Search, Link}
use meritrank_rust.Service.AStar.Steps.{iteration, neighbor_node, enum_neighbors_step, step_of}
use meritrank_rust.Service.AStar.Invariant.{IsStored, IsEnumerating, IsReady, Continues}
use meritrank_rust.Service.AStar.Nearest.{search_nearest_step-Continues}
use meritrank_rust.Service.AStar.Links.{close_step-Continues, link_step-Continues}

module _ (t : Types) (Fits : Node t → Type 0) (source destination : t.NodeId) where
  -- A neighbour that is passed on is one of the node that the search asked about.
  abbrev pub LinkFits : Search t → Option (Link t) → Type 0
  LinkFits s link =
      s.state.stage ≡ enum_neighbors
      → (x : Node t) (l : Link t) → s.state.node ≡ some x
      → link ≡ some l
      → Fits (neighbor_node t x l)

  enum_neighbors_step-Continues :
      (s : Search t) (x : Node t)
      → IsStored t Fits source destination s
      → IsEnumerating t Fits s x
      → s.state.stage ≡ enum_neighbors
      → (link : Option (Link t)) → ((l : Link t) → link ≡ some l → Fits (neighbor_node t x l))
      → Returns (enum_neighbors_step t (some x) link s) (Continues t Fits source destination s)
  unfolding enum_neighbors_step
  enum_neighbors_step-Continues s x i e at none fits =
      close_step-Continues t Fits source destination s x i e
  enum_neighbors_step-Continues s x i e at (some l) fits =
      link_step-Continues t Fits source destination s x i e l at (fits l refl)

  step_of-Continues :
      (s : Search t) (stage : Stage) (link : Option (Link t))
      → s.state.stage ≡ stage
      → IsStored t Fits source destination s
      → IsReady t Fits s
      → LinkFits s link
      → Returns (step_of t stage link s) (Continues t Fits source destination s)
  unfolding step_of
  step_of-Continues s search_nearest link at i ready fits =
      search_nearest_step-Continues t Fits source destination s i
  step_of-Continues s enum_neighbors link at i ready fits =
      let (x, e) = ready at in
      subst (λ n. Returns (enum_neighbors_step t n link s) (Continues t Fits source destination s))
        (sym e.current) (enum_neighbors_step-Continues s x i e at link (λ l. fits at x l e.current))

  pub iteration-Continues :
      (s : Search t) (link : Option (Link t))
      → IsStored t Fits source destination s
      → IsReady t Fits s
      → LinkFits s link
      → Returns (iteration t s link) (Continues t Fits source destination s)
  unfolding iteration
  iteration-Continues s link i ready fits = step_of-Continues s s.state.stage link refl i ready fits
