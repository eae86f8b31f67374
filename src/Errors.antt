-- ===== src/Errors.antt =====
-- core/src/errors.rs: the error type of the core crate, its diagnostic tags and its messages.
use Prim.Native.String.{String, ◌++◌}
use mathlib.Core.Option.{Option, none, some}

-- The constants of `internal_fatal`.
pub data InternalFatal : Type 0 where
  rank_calculate_get_walk_mut rank_set_edge_get_node_data_src rank_set_edge_get_walk : InternalFatal
  rank_set_edge_first_node rank_set_edge_get_walk_mut rank_assert_get_visits : InternalFatal
  rank_assert_pos_hits_count rank_assert_neg_hits_count : InternalFatal
  graph_nodedata_pos_weighted_index graph_nodedata_pos_distr_cache : InternalFatal
  graph_nodedata_pos_keys_nth graph_nodedata_abs_weighted_index : InternalFatal
  graph_nodedata_abs_distr_cache graph_get_node_at_index_pos : InternalFatal
  graph_get_node_at_index_neg graph_set_edge_remove_failed : InternalFatal
  graph_generate_walk_get_node_data graph_continue_walk_last_node : InternalFatal
  walk_storage_drop_walks_get_mut walk_storage_assert_visits : InternalFatal
  walk_storage_find_affected_get_walk walk_storage_find_affected_dst_none : InternalFatal
  walk_storage_split_get_mut walk_decide_skip_deletion_pos : InternalFatal
  walk_decide_skip_addition_pos random_walk_push_self_loop : InternalFatal
  random_walk_push_neg_segment random_walk_extend_two_neg : InternalFatal

pub data MeritRankError : Type 0 where
  inf_weight_encountered nan_weight_encountered zero_weight_encountered : MeritRankError
  node_does_not_exist self_reference_not_allowed random_choice_error : MeritRankError
  no_path_exists node_id_parse_error node_is_not_calculated : MeritRankError
  invalid_walk_length node_not_found walk_not_found edge_not_found : MeritRankError
  internal_fatal_error : Option InternalFatal → MeritRankError

-- What a call of the core crate does: it returns, returns an error, or panics. `no_fuel` is no
-- outcome of the code: it says that the model's bound on a loop was too small.
pub data Result {ℓ} (A : Type ℓ) : Type ℓ where
  ok : A → Result A
  err : MeritRankError → Result A
  panic : Result A
  no_fuel : Result A

infixl 5 ◌>>=◌ ◌>>◌
abbrev pub ◌>>=◌ {ℓ κ} : {A : Type ℓ} {B : Type κ} → Result A → (A → Result B) → Result B
ok a >>= f = f a
err e >>= f = err e
panic >>= f = panic
no_fuel >>= f = no_fuel

abbrev pub ◌>>◌ {ℓ} : {B : Type ℓ} → Result (Unit {0}) → Result B → Result B
m >> k = m >>= λ _. k

abbrev pub fatal {ℓ} : {A : Type ℓ} → InternalFatal → Result A
fatal site = err (internal_fatal_error (some site))

-- `option.ok_or(e)?`
abbrev pub ok_or {ℓ} : {A : Type ℓ} → Option A → MeritRankError → Result A
ok_or none e = err e
ok_or (some a) e = ok a

abbrev pub is_err {ℓ} : {A : Type ℓ} → Result A → mathlib.Core.Bool.Bool
is_err (err e) = mathlib.Core.Bool.true
is_err _ = mathlib.Core.Bool.false

-- The text of each tag.
unfoldable pub tag : InternalFatal → String
tag rank_calculate_get_walk_mut = "rank::calculate get_walk_mut None"
tag rank_set_edge_get_node_data_src = "rank::set_edge_ get_node_data(src) None"
tag rank_set_edge_get_walk = "rank::set_edge_ get_walk None"
tag rank_set_edge_first_node = "rank::set_edge_ walk first_node None"
tag rank_set_edge_get_walk_mut = "rank::set_edge_ get_walk_mut None"
tag rank_assert_get_visits = "rank::assert_counters get_visits_through_node None"
tag rank_assert_pos_hits_count = "rank::assert_counters pos_hits count mismatch"
tag rank_assert_neg_hits_count = "rank::assert_counters neg_hits count mismatch"
tag graph_nodedata_pos_weighted_index = "graph::NodeData random_neighbor pos WeightedIndex::new Err"
tag graph_nodedata_pos_distr_cache = "graph::NodeData pos_distr_cache None"
tag graph_nodedata_pos_keys_nth = "graph::NodeData pos_edges.keys().nth None"
tag graph_nodedata_abs_weighted_index = "graph::NodeData random_neighbor abs WeightedIndex::new Err"
tag graph_nodedata_abs_distr_cache = "graph::NodeData abs_distr_cache None"
tag graph_get_node_at_index_pos = "graph::get_node_at_index pos_edges.keys().nth None"
tag graph_get_node_at_index_neg = "graph::get_node_at_index neg_edges.keys().nth None"
tag graph_set_edge_remove_failed = "graph::set_edge remove_edge failed"
tag graph_generate_walk_get_node_data = "graph::generate_walk_segment get_node_data_mut None"
tag graph_continue_walk_last_node = "graph::continue_walk last_node None"
tag walk_storage_drop_walks_get_mut = "walk_storage::drop_walks_from_node get_mut None"
tag walk_storage_assert_visits = "walk_storage::assert_visits_consistency"
tag walk_storage_find_affected_get_walk = "walk_storage::find_affected_walkids get_walk None"
tag walk_storage_find_affected_dst_none = "walk_storage::find_affected_walkids dst_node None"
tag walk_storage_split_get_mut = "walk_storage::split_and_remove_from_bookkeeping get_mut None"
tag walk_decide_skip_deletion_pos = "decide_skip_invalidation_on_edge_deletion pos >= walk.len"
tag walk_decide_skip_addition_pos = "decide_skip_invalidation_on_edge_addition pos >= walk.len"
tag random_walk_push_self_loop = "random_walk::push self-loop"
tag random_walk_push_neg_segment = "random_walk::push negative_segment_start already Some"
tag random_walk_extend_two_neg = "random_walk::extend two negative segments"

-- `Display::fmt`
unfoldable pub fmt : MeritRankError → String
unfolding tag
fmt inf_weight_encountered = "Edge with infinite weights are not allowed"
fmt nan_weight_encountered = "Edge with NaN weights are not allowed"
fmt zero_weight_encountered = "Edge with zero weights are not allowed"
fmt node_does_not_exist = "Node does not exist"
fmt self_reference_not_allowed = "Self-reference is not allowed"
fmt random_choice_error = "Random choice error"
fmt no_path_exists = "No path exists"
fmt node_id_parse_error = "Node ID parse error"
fmt node_is_not_calculated = "Node is not calculated"
fmt invalid_walk_length = "Invalid walk length"
fmt node_not_found = "Can't find the node with the given ID"
fmt walk_not_found = "Can't find the walk with the given ID"
fmt edge_not_found = "Can't find the edge between given nodes"
fmt (internal_fatal_error none) = "Internal fatal error"
fmt (internal_fatal_error (some site)) = "Internal fatal error: " ++ tag site
