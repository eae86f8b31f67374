-- ===== src/Service/PathSearch/Sound.antt =====
-- service/src/helpers.rs: `perform_astar_search` does not panic, and the path it returns is one.
use meritrank_rust.Prelude.{
  ℕ, zero, suc, ◌+◌, ◌-◌, ◌*◌, ◌≤◌, ◌<◌, ◌≡◌, ◌⊎◌, refl, sym, ap, ◌∙◌, subst, inl, inr, List, [],
  Option, none, some, true, length, get_elem?, arith, replicate, is_some, lt-length_of_get_elem?,
  Option-cases,
}
use meritrank_rust.Prelude.IntMap
use meritrank_rust.Prelude.Partial.{Returns, some-Returns, bind-Returns, some_injective}
use meritrank_rust.Deps.{Deps}
use meritrank_rust.Graph.Node.{NodeData}
use meritrank_rust.Graph.Edges.{Graph, get_node_data}
use meritrank_rust.Service.AStar.{
  Stage, Node, NeighborRequest, Link, Search, Status, progress, success, fail, out_of_memory,
  neighbor, init, enum_neighbors, search_nearest,
}
use meritrank_rust.Service.AStar.Invariant.{
  Continues, Holds, IsStored, IsEnumerating, IsReady, IsReached, none-some, init-IsStored,
}
use meritrank_rust.Service.AStar.Iteration.{LinkFits, iteration-Continues}
use meritrank_rust.Service.AStar.Trail.{IsLinked}
use meritrank_rust.Service.AStar.Walk.{IsPath, path-IsReported}
use meritrank_rust.Service.PathSearch.Resize.{
  length-resize, get_elem?-resize, get_elem?-keys, nil_of_length,
}
use meritrank_rust.Service.PathSearch.{
  types, default_node, link_of, link_in, neighbor_of, grow, resize, on_status, search_loop, report,
  search_within, perform_astar_search,
}

not-both : {stage : Stage} → stage ≡ search_nearest → ¬ (stage ≡ enum_neighbors)
not-both e f = cc

module _ (d : Deps) (g : Graph d) where
  -- The graph has a positive edge between the two nodes.
  pub record PositiveEdge (from to : ℕ) : Type 0 where
    pub data_of : NodeData d
    pub stored : get_node_data d g from ≡ some data_of
    pub weighted : is_some (d.edges.get to data_of.pos_edges) ≡ true

  -- The ids lead from the ego to the focus along positive edges.
  pub record IsWay (ego focus : ℕ) (ids : List ℕ) : Type 0 where
    pub begins : get_elem? ids 0 ≡ some ego
    pub ends : get_elem? ids (length ids - 1) ≡ some focus
    pub steps :
        (k u v : ℕ) → get_elem? ids k ≡ some u → get_elem? ids (k + 1) ≡ some v → PositiveEdge u v

  abbrev Linked : Node (types d) → Type 0
  Linked = IsLinked (types d) PositiveEdge

  link_in-weighted :
      (o : Option (NodeData d)) (index : ℕ) (l : Link (types d))
      → link_in d o index ≡ some l
      → (node : NodeData d) × (o ≡ some node)
        × (is_some (d.edges.get l.neighbor_id node.pos_edges) ≡ true)
  link_in-weighted none index l e = absurd (none-some e)
  link_in-weighted (some node) index l e =
      elim (Option-cases (get_elem? (d.edges.entries node.pos_edges) index)) [
        | inl missing ↦ absurd (none-some (sym (ap (link_of d node) missing) ∙ e))
        | inr (entry, at) ↦
            let key : entry.0 ≡ l.neighbor_id =
              ap (λ (k : Link (types d)). k.neighbor_id)
                (some_injective (sym (ap (link_of d node) at) ∙ e)) in
            (
              node,
              refl,
              ap is_some (sym (d.edges.get-entries l.neighbor_id node.pos_edges))
                  ∙ IntMap.get_of_key (d.edges.entries node.pos_edges) index l.neighbor_id (
                      get_elem?-keys (d.edges.entries node.pos_edges) index entry at ∙ ap some key),
            )
      ]

  neighbor_of-Linked :
      (request : NeighborRequest (types d)) (l : Link (types d))
      → neighbor_of d g request ≡ some l
      → PositiveEdge request.node l.neighbor_id
  unfolding neighbor_of
  neighbor_of-Linked request l e =
      let (node, at, weighted) =
        link_in-weighted (get_node_data d g request.node) request.index l e in
      record { data_of = node; stored = at; weighted = weighted }

  -- Slices that have grown hold what they held.
  resize-Holds :
      (Fits : Node (types d) → Type 0) (xs : List (Node (types d))) (n : ℕ)
      → n ≤ length xs
      → Holds (types d) Fits xs n
      → Holds (types d) Fits (resize (length xs * 2) (default_node d) xs) n
  resize-Holds Fits xs n le h i lt x at = h i lt x (
      sym (get_elem?-resize (length xs * 2) (default_node d) xs i (omega arith) (omega arith)) ∙ at)

  module _ (ego focus : ℕ) where
    -- What holds before each round.
    record IsRound (s : Search (types d)) (link : Option (Link (types d))) : Type 0 where
      stored : IsStored (types d) Linked ego focus s
      ready : IsReady (types d) Linked s
      link_fits : LinkFits (types d) Linked ego focus s link

    -- What holds when the loop has ended.
    abbrev IsEnd : Search (types d) × Status (types d) → Type 0
    IsEnd (s, status) =
        IsStored (types d) Linked ego focus s × (status ≡ success → IsReached (types d) Linked s)

    asked-IsRound :
        (s : Search (types d)) (request : NeighborRequest (types d)) (x : Node (types d))
        → IsStored (types d) Linked ego focus s
        → IsEnumerating (types d) Linked s x
        → x.id ≡ request.node
        → IsRound s (neighbor_of d g request)
    asked-IsRound s request x i e same = record {
      stored = i;
      ready = λ _. (x, e);
      link_fits = λ _ y l at answer p from.
          subst (λ n. PositiveEdge n l.neighbor_id)
            (sym same
              ∙ ap (λ (n : Node (types d)). n.id) (some_injective (sym e.current ∙ at))
              ∙ some_injective from)
            (neighbor_of-Linked request l answer);
    }

    grow-IsRound :
        (s : Search (types d)) (link : Option (Link (types d)))
        → IsRound s link
        → IsRound (grow d s) link
    unfolding grow
    grow-IsRound s link r = record {
      stored = record {
        from = r.stored.from;
        to = r.stored.to;
        open_fits =
            (let le = r.stored.open_fits in
              omega (arith, length-resize (length s.open_nodes * 2) (default_node d) s.open_nodes));
        closed_fits =
            (let le = r.stored.closed_fits in
              omega
                (arith, length-resize (length s.closed_nodes * 2) (default_node d) s.closed_nodes));
        open_good =
            resize-Holds Linked s.open_nodes s.state.num_open r.stored.open_fits r.stored.open_good;
        closed_good =
            resize-Holds Linked s.closed_nodes s.state.num_closed r.stored.closed_fits
              r.stored.closed_good;
        node_good = r.stored.node_good;
        closest = r.stored.closest;
      };
      ready = λ at.
          let (x, e) = r.ready at in
          (
            x,
            record {
              current = e.current;
              room =
                  (let le = e.room in
                    omega (
                      arith,
                      length-resize (length s.closed_nodes * 2) (default_node d) s.closed_nodes,
                    ));
            },
          );
      link_fits = r.link_fits;
    }

    on_status-Returns :
        (before s : Search (types d)) (link : Option (Link (types d))) (status : Status (types d))
        (next : Search (types d)
          → Option (Link (types d))
          → Option (Search (types d) × Status (types d)))
        → IsRound before link
        → Continues (types d) Linked ego focus before (s, status)
        → (¬ (status ≡ success)
            → (s : Search (types d)) (link : Option (Link (types d))) → IsRound s link
            → Returns (next s link) IsEnd)
        → Returns (on_status d g s link status next) IsEnd
    unfolding on_status
    on_status-Returns before s link progress next r (i, at) go =
        go (λ e. cc) s link
          (record {
            stored = i;
            ready = λ e. absurd (not-both at e);
            link_fits = λ e. absurd (not-both at e);
          })
    on_status-Returns before s link success next r (i, reached) go =
        some-Returns _ (i, λ _. reached)
    on_status-Returns before s link fail next r (i, same) go = some-Returns _ (i, λ e. cc)
    on_status-Returns before s link out_of_memory next r (i, same) go =
        go (λ e. cc) (grow d s) link
          (grow-IsRound s link (subst (λ q. IsRound q link) (sym same) r))
    on_status-Returns before s link (neighbor request) next r (i, (x, e, at, same)) go =
        go (λ e. cc) s _ (asked-IsRound s request x i e same)

    search_loop-Returns :
        (left : ℕ) (status : Status (types d)) (s : Search (types d))
        (link : Option (Link (types d)))
        → ¬ (status ≡ success)
        → IsRound s link
        → Returns (search_loop d g left status s link) IsEnd
    unfolding search_loop
    search_loop-Returns zero status s link h r =
        some-Returns (s, status) (r.stored, λ e. absurd (h e))
    search_loop-Returns (suc left) status s link h r =
        bind-Returns
          (iteration-Continues (types d) Linked ego focus s link r.stored r.ready r.link_fits)
          (λ q c.
            on_status-Returns s q.0 link q.1 (search_loop d g left q.1) r c
              (λ h s link r. search_loop-Returns left q.1 s link h r))

    start-IsRound :
        (size : ℕ)
        → IsRound
            (record {
              open_nodes = (init (types d) (replicate size (default_node d)) ego focus d.zero).0;
              closed_nodes = replicate size (default_node d);
              state = (init (types d) (replicate size (default_node d)) ego focus d.zero).1;
            })
            none
    unfolding init
    start-IsRound size = record {
      stored =
          init-IsStored (types d) Linked (replicate size (default_node d))
            (replicate size (default_node d)) ego focus d.zero (λ p e. absurd (none-some e));
      ready = λ e. absurd (not-both refl e);
      link_fits = λ e. absurd (not-both refl e);
    }

    -- What is returned: an error, no ids, or a way.
    abbrev pub IsAnswer : Option (List ℕ) → Type 0
    IsAnswer none = Unit {0}
    IsAnswer (some ids) = (ids ≡ []) ⊎ IsWay ego focus ids

    path-IsWay :
        (s : Search (types d)) (x : Node (types d)) (ids : List ℕ) (n : ℕ)
        → (i : IsStored (types d) Linked ego focus s) → x.id ≡ focus
        → IsPath
            (types d)
            PositiveEdge
            s.closed_nodes
            s.state
            i.closed_fits
            i.closed_good
            x.id
            ids
            n
        → IsWay ego focus (resize n 0 ids)
    path-IsWay s x ids n i is_focus p =
        let some_ids = p.some_ids in
        let long = lt-length_of_get_elem? ids (n - 1) x.id p.ends in
        let size = length-resize n 0 ids in
        let at = λ (j : ℕ) (lt : j < n). get_elem?-resize n 0 ids j lt (omega arith) in
        record {
          begins = at 0 some_ids ∙ p.begins ∙ ap some i.from;
          ends =
              ap (λ m. get_elem? (resize n 0 ids) (m - 1)) size
              ∙ at (n - 1) (omega arith)
              ∙ p.ends
              ∙ ap some is_focus;
          steps = λ k u v at_u at_v.
              let inside = lt-length_of_get_elem? (resize n 0 ids) (k + 1) v at_v in
              p.steps k u v (omega arith) (sym (at k (omega arith)) ∙ at_u)
                (sym (at (k + 1) (omega arith)) ∙ at_v);
        }

    report-Returns :
        (s : Search (types d)) (status : Status (types d))
        → IsEnd (s, status)
        → Returns (report d (s, status)) IsAnswer
    unfolding report
    report-Returns s success (i, reached) =
        let r = reached refl in
        bind-Returns
          (path-IsReported (types d) PositiveEdge s.closed_nodes s.state i.closed_fits i.closed_good
            (replicate s.state.num_closed 0))
          (λ q reported. some-Returns _ (elim reported [
            | inl none_found ↦ inl (nil_of_length _ (length-resize q.0 0 q.1 ∙ none_found))
            | inr (x, at, p) ↦ inr (
                path-IsWay s x q.1 q.0 i
                  (ap (λ (n : Node (types d)). n.id) (some_injective (sym at ∙ r.place))
                    ∙ r.destination
                    ∙ i.to)
                  p)
          ]))
    report-Returns s progress e = some-Returns none tt
    report-Returns s fail e = some-Returns none tt
    report-Returns s out_of_memory e = some-Returns none tt
    report-Returns s (neighbor r) e = some-Returns none tt

    search_within-IsAnswer :
        (size rounds : ℕ) → Returns (search_within d size rounds g ego focus) IsAnswer
    unfolding search_within
    search_within-IsAnswer size rounds =
        bind-Returns (search_loop-Returns rounds progress _ none (λ e. cc) (start-IsRound size))
          (λ q e. report-Returns q.0 q.1 e)

  -- On any graph, ego and focus, `perform_astar_search` does not panic: every index of its slices
  -- is in range, within its 10000 iterations. It returns an error, or no ids, or ids that begin
  -- with the ego, end with the focus and of which each two neighbours are joined by a positive
  -- edge of the graph.
  pub perform_astar_search-IsAnswer :
      (ego focus : ℕ) → Returns (perform_astar_search d g ego focus) (IsAnswer ego focus)
  unfolding perform_astar_search
  perform_astar_search-IsAnswer ego focus = search_within-IsAnswer ego focus 1024 10000
