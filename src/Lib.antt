-- ===== src/Lib.antt =====
-- MeritRank (core/, service/): a reputation of nodes in a directed weighted graph, personal to
-- an ego node, from random walks that start at the ego. The core crate keeps the graph, the
-- walks and counters of the nodes they hit; the service keeps names and several such graphs
-- behind a queue of operations; a PostgreSQL extension calls the service.
--
-- Modelled is the core crate, by paths from the repository's root:
--   core/src/errors.rs        Errors: the error type, the tags of internal errors, their texts
--   core/src/counter.rs       Counter: hit counters by node; Counter/Laws
--   core/src/random_walk.rs   RandomWalk: a walk and its negative segment; Shape is about its form,
--                             Segments the two segments under cutting and extending
--   core/src/graph.rs         Graph/Node (`NodeData`), Graph/Edges (`Graph`: `set_edge`,
--                             `remove_edge`, `edge_weight`), Graph/Walks (`generate_walk_segment`,
--                             `continue_walk`, `extend_walk_in_case_of_edge_deletion`)
--   core/src/walk_storage.rs  WalkStorage: the slots of all egos' walks and the table of visits;
--                             Index is about the table as the inverted index of the walks, Skips
--                             and Additions about what an edge change does to one walk
--   core/src/rank.rs          Rank: State, Calculate, Updates (`set_edge`, `set_edge_`), Scores,
--                             Checks; Graphs and Updates/Graphs say what the operations do to the graph;
--                             Runs has rules for the operations' monad; Exact says when counters,
--                             table of visits and blocks fit the walks, its children follow
--                             calculate and set_edge step by step
-- and of the service, which keeps them for the core's ids,
--   service/src/node_registry.rs, service/src/data.rs (`NodeKind`)
--                             Service/NodeRegistry: names, kinds and owners of nodes; Laws
--   service/src/utils/quantiles.rs
--                             Service/Quantiles: bounds between quantiles of scores
--   service/src/utils/astar.rs
--                             Service/AStar: the search one iteration at a time (Steps), and the path
--                             that is read out of its closed nodes (Trace); Invariant, Nearest, Links
--                             and Iteration are about the one, Trail, Reverse and Walk about the other
--   service/src/helpers.rs    Service/PathSearch (`perform_astar_search`): the search on the core's
--                             graph; Resize, Sound. Service/Ownership
--                             (`prioritize_ego_owned_items`): Partition
--   service/src/vsids.rs      Service/Vsids: the scaling of new weights; Magnitudes, Laws,
--                             Overflow
--   service/src/state_manager.rs
--                             Service/Processor: the two copies of a graph, their channels, and the
--                             thread that exchanges them, as a step relation; Copies, Readers,
--                             Order and Progress say what holds in every state reached
-- Prelude holds what these share; Prelude/Partial is for code that may panic at an index. Tests
-- holds runs at concrete inputs.
--
-- Service/NodeRegistry takes new ids from Rank, which takes them from Graph. Rank calls Graph to
-- change edges and draw walks, and WalkStorage to find and cut the walks that an edge change
-- affects; both use RandomWalk; Rank and WalkStorage update Counters. Service/PathSearch reads
-- the positive edges of Graph and drives Service/AStar. Service/Processor takes what an
-- operation may make of a graph as an argument, a relation: the code draws random walks there,
-- so the two copies may come to differ. That it panics there is outside the model.
--
-- How the code is read. A method that mutates returns what it leaves, also beside an error.
-- Result has the constructors ok, err and panic (`unwrap`, `expect`, `assert!`, an index out of
-- range). In the service a panic is none of Option; where the code returns Option or Result too,
-- the value is nested. usize and the i32 counts are natural numbers: they do not overflow here.
-- f64, the generator of random numbers with its weighted distributions, IndexMap and SetUsize
-- are not implemented by the code: they are the interfaces of Deps, with the laws that the
-- proofs use, and Tests/Concrete gives functions that satisfy them. IntMap is the standard hash
-- map and is an association list; its order is one of those the map may have. A method of Rust
-- that borrows a value to change it is a function that returns the new value; the function's
-- name is the method's, except where a name is taken (`set_edge_inner` is `set_edge_`,
-- `has_node` is `RandomWalk::contains`, `has_no_nodes` is `is_empty`, `add_node` is `_add_node`,
-- `inbound_edges_of` is `Graph::get_inbound_edges`).
--
-- Fuel. The loop of `generate_walk_segment` ends when the generator draws a value above alpha.
-- The model runs it on fuel, and the constructor `no_fuel` of Result says that the fuel ended.
-- Graph/Walks/Stops states what is assumed of the generator, and that more fuel than the rounds
-- that it allows is enough. The loop of `path` in astar.rs ends by itself; it is given one round
-- more than there are closed nodes, and Service/AStar/Walk shows that this is enough. The 10000
-- rounds of `perform_astar_search` and its 1024 places are the code's. Every other loop is over
-- a list or a counted range.
--
-- Not modelled: logging and printing, the iterator types, the rest of the service crate, the
-- PostgreSQL extension, the load test.
pub mod Counter
pub mod Deps
pub mod Errors
pub mod Graph
pub mod Prelude
pub mod RandomWalk
pub mod Rank
pub mod Service
mod Tests
pub mod WalkStorage
