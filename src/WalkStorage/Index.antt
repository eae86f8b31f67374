-- ===== src/WalkStorage/Index.antt =====
-- core/src/walk_storage.rs: the table of visits is the inverted index of the walks, and every
-- operation keeps it so.
use meritrank_rust.Prelude.{
  ℕ, zero, suc, ◌+◌, ◌-◌, ◌≤◌, ◌≡◌, refl, sym, ◌∙◌, inl, inr, List, ◌++◌, Option, none, some, true,
  false, ◌&&◌, if◌then◌else◌, ◌==◌, arith, length, get_elem?, take, drop, set, replicate, contains,
  find_index, Option-cases, Bool-cases, get_elem?-set, get_elem?-append, get_elem?-replicate,
  find_index-append, find_index-eq-none, find_index-ne-none, take-append-drop, length-take,
  get_elem?_ge_none, is_empty,
}
use meritrank_rust.Deps.{NodeSet}
use meritrank_rust.Errors.{Result, ok, err, panic, no_fuel}
use meritrank_rust.RandomWalk.{RandomWalk, split_from}
use meritrank_rust.RandomWalk
use meritrank_rust.RandomWalk.Segments.{split_from_nodes}
use meritrank_rust.WalkStorage.{
  WalkStorage, new, get_walk, ensure_block_for_ego, forget_visits, Hits, clear_slot, clear_slots,
  and_then, clear_block_for_ego, update_walk_bookkeeping, clear, cut_walk,
  split_and_remove_from_bookkeeping, get_block_start,
}
use meritrank_rust.WalkStorage.Visits.{
  visit_of, visit_of-forget_visits, visit_of-forget_cut, visit_of-note_visits,
}

-- The first visit of a walk to a node, read off the walk itself.
abbrev pub first_visit : List RandomWalk → ℕ → ℕ → Option ℕ
first_visit walks node walk_id = elim (get_elem? walks walk_id) [
  | none ↦ none
  | some w ↦ find_index node w.nodes
]

-- The table says of every node which walks visit it, and where first; and nothing else.
abbrev pub IsIndexed : WalkStorage → Type 0
IsIndexed st =
    (node walk_id : ℕ) → visit_of st.visits node walk_id ≡ first_visit st.walks node walk_id

pub new-IsIndexed : (n : ℕ) → IsIndexed (new n)
new-IsIndexed n node walk_id = refl

pub clear-IsIndexed : (st : WalkStorage) → IsIndexed (clear st)
unfolding clear
clear-IsIndexed st node walk_id = refl

-- New slots hold empty walks, which visit no node.
first_visit-append_empty :
    (walks : List RandomWalk) (n node walk_id : ℕ)
    → first_visit (walks ++ replicate n RandomWalk.new) node walk_id
      ≡ first_visit walks node walk_id
first_visit-append_empty walks n node walk_id = ground (
  arith,
  get_elem?-append walks (replicate n RandomWalk.new) walk_id,
  get_elem?-replicate n RandomWalk.new (walk_id - length walks),
  get_elem?_ge_none walks walk_id,
)

pub ensure_block_for_ego-IsIndexed :
    (st : WalkStorage) (ego : ℕ) → IsIndexed st → IsIndexed (ensure_block_for_ego st ego).0
unfolding ensure_block_for_ego
ensure_block_for_ego-IsIndexed st ego h node walk_id =
    elim (Option-cases (get_block_start st ego)) [
      | inl e ↦
          rw (e, ensure_block_for_ego)
            (h node walk_id ∙ sym (first_visit-append_empty st.walks st.walks_per_ego node walk_id))
      | inr (s, e) ↦ rw (e, ensure_block_for_ego) (h node walk_id)
    ]

-- If the table of visits is right for every other walk and, for the given walk, says the first
-- visits among its first `start_pos` nodes, then `update_walk_bookkeeping` makes it right for
-- every walk. The position is at most the walk's length.
pub update_walk_bookkeeping-IsIndexed :
    (st : WalkStorage) (walk_id start_pos : ℕ) (walk : RandomWalk)
    → get_walk st walk_id ≡ some walk
    → start_pos ≤ length walk.nodes
    → ((node k : ℕ)
        → visit_of st.visits node k ≡ (
            if walk_id == k
            then find_index node (take start_pos walk.nodes)
            else first_visit st.walks node k))
    → IsIndexed (update_walk_bookkeeping st walk_id start_pos)
unfolding update_walk_bookkeeping
update_walk_bookkeeping-IsIndexed st walk_id start_pos walk found within h node k =
    rw (found, update_walk_bookkeeping)
      (ground (
        arith,
        h node k,
        found,
        visit_of-note_visits walk_id node k st.visits start_pos (drop start_pos walk.nodes),
        find_index-append node (take start_pos walk.nodes) (drop start_pos walk.nodes),
        take-append-drop start_pos walk.nodes,
        length-take start_pos walk.nodes,
      ))

-- The first visits of the part kept, from those of the whole.
find_index_kept :
    (node : ℕ) (kept cut : List ℕ)
    → (if contains cut node && (if contains kept node then false else true)
        then none
        else find_index node (kept ++ cut))
      ≡ find_index node kept
find_index_kept node kept cut = elim (Bool-cases (contains kept node)) [
  | inl e ↦
      let (i, f) = find_index-ne-none node kept e in ground (arith, find_index-append node kept cut)
  | inr e ↦ elim (Bool-cases (contains cut node)) [
    | inl c ↦ ground (arith, find_index-eq-none node kept e)
    | inr c ↦ ground (
      arith,
      find_index-append node kept cut,
      find_index-eq-none node kept e,
      find_index-eq-none node cut c,
    )
  ]
]

cut_walk-IsIndexed :
    (st : WalkStorage) (walk_id at : ℕ) (w : RandomWalk) (r : Result (RandomWalk × RandomWalk))
    → get_walk st walk_id ≡ some w
    → split_from w at ≡ r
    → IsIndexed st
    → IsIndexed (cut_walk st walk_id r).0
unfolding cut_walk
cut_walk-IsIndexed st walk_id at w (ok (kept, cut)) found e h = λ node k.
    elim (Bool-cases (walk_id == k)) [
      | inl same ↦ ground (
        arith,
        h node k,
        visit_of-forget_cut walk_id node k st.visits kept.nodes cut.nodes,
        get_elem?-set st.walks walk_id k w kept found,
        find_index_kept node kept.nodes cut.nodes,
        split_from_nodes w kept cut at e,
      )
      | inr other ↦ ground (
        arith,
        h node k,
        visit_of-forget_cut walk_id node k st.visits kept.nodes cut.nodes,
        get_elem?-set st.walks walk_id k w kept found,
      )
    ]
cut_walk-IsIndexed st walk_id at w (err x) found e h = h
cut_walk-IsIndexed st walk_id at w panic found e h = h
cut_walk-IsIndexed st walk_id at w no_fuel found e h = h

-- If the table of visits says of every node exactly which walks visit it and where first, it still
-- does after `split_and_remove_from_bookkeeping`, whatever the walk and the position, errors and
-- panics included.
pub split_and_remove_from_bookkeeping-IsIndexed :
    (st : WalkStorage) (walk_id cut_pos : ℕ)
    → IsIndexed st
    → IsIndexed (split_and_remove_from_bookkeeping st walk_id cut_pos).0
unfolding split_and_remove_from_bookkeeping
split_and_remove_from_bookkeeping-IsIndexed st walk_id cut_pos h =
    elim (Option-cases (get_walk st walk_id)) [
      | inl e ↦ rw (e, split_and_remove_from_bookkeeping) h
      | inr (w, e) ↦
          rw (e, split_and_remove_from_bookkeeping)
            (cut_walk-IsIndexed st walk_id cut_pos w (split_from w cut_pos) e refl h)
    ]

module _ (sets : NodeSet) where
  cleared-IsIndexed :
      (st : WalkStorage) (walk_id : ℕ) (w : RandomWalk)
      → get_walk st walk_id ≡ some w
      → IsIndexed st
      → IsIndexed (record st {
        visits = forget_visits st.visits walk_id w.nodes;
        walks = set st.walks walk_id (RandomWalk.clear w);
      })
  unfolding RandomWalk.clear
  cleared-IsIndexed st walk_id w found h node k = elim (Bool-cases (contains w.nodes node)) [
    | inl e ↦ ground (
      arith,
      h node k,
      visit_of-forget_visits walk_id node k st.visits w.nodes,
      get_elem?-set st.walks walk_id k w (RandomWalk.clear w) found,
    )
    | inr e ↦ ground (
      arith,
      h node k,
      visit_of-forget_visits walk_id node k st.visits w.nodes,
      get_elem?-set st.walks walk_id k w (RandomWalk.clear w) found,
      find_index-eq-none node w.nodes e,
    )
  ]

  pub clear_slot-IsIndexed :
      (st : WalkStorage) (hits : Hits) (ego walk_id : ℕ)
      → IsIndexed st
      → IsIndexed (clear_slot sets st hits ego walk_id).0.0
  unfolding clear_slot
  clear_slot-IsIndexed st hits ego walk_id h = elim (Option-cases (get_walk st walk_id)) [
    | inl e ↦ rw (e, clear_slot) h
    | inr (w, e) ↦ elim (Bool-cases (is_empty w.nodes)) [
      | inl none_there ↦ rw (e, clear_slot) (rw none_there h)
      | inr some_there ↦ rw (e, clear_slot) (rw some_there (cleared-IsIndexed st walk_id w e h))
    ]
  ]

  and_then-IsIndexed :
      (r : (WalkStorage × Hits) × Result (Unit {0}))
      (rest : WalkStorage → Hits → (WalkStorage × Hits) × Result (Unit {0}))
      → IsIndexed r.0.0
      → ((st : WalkStorage) (hits : Hits) → IsIndexed st → IsIndexed (rest st hits).0.0)
      → IsIndexed (and_then sets r rest).0.0
  unfolding and_then
  and_then-IsIndexed ((st, hits), ok u) rest h k = k st hits h
  and_then-IsIndexed ((st, hits), err e) rest h k = h
  and_then-IsIndexed ((st, hits), panic) rest h k = h
  and_then-IsIndexed ((st, hits), no_fuel) rest h k = h

  clear_slots-IsIndexed :
      (left : ℕ) (st : WalkStorage) (hits : Hits) (ego walk_id : ℕ)
      → IsIndexed st
      → IsIndexed (clear_slots sets left st hits ego walk_id).0.0
  unfolding clear_slots
  clear_slots-IsIndexed zero st hits ego walk_id h = h
  clear_slots-IsIndexed (suc left) st hits ego walk_id h =
      and_then-IsIndexed (clear_slot sets st hits ego walk_id) _
        (clear_slot-IsIndexed st hits ego walk_id h)
        (λ st' hits' h'. clear_slots-IsIndexed left st' hits' ego (walk_id + 1) h')

  -- If the table of visits says of every node exactly which walks visit it and where first, it
  -- still does after `clear_block_for_ego`, also where that ends with an error.
  pub clear_block_for_ego-IsIndexed :
      (st : WalkStorage) (hits : Hits) (ego start_id : ℕ)
      → IsIndexed st
      → IsIndexed (clear_block_for_ego sets st hits ego start_id).0.0
  unfolding clear_block_for_ego
  clear_block_for_ego-IsIndexed st hits ego start_id h =
      clear_slots-IsIndexed st.walks_per_ego st hits ego start_id h
