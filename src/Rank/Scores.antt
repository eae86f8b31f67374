-- ===== src/Rank/Scores.antt =====
-- core/src/rank.rs: `get_node_score`, `get_all_scores` and `get_personal_hits`, read off the counters of an ego.
use meritrank_rust.Prelude.{
  ℕ, ◌+◌, List, [], ◌∷◌, ◌++◌, Option, if◌then◌else◌, unwrap_or, take, length, contains,
}
use meritrank_rust.Prelude.IntMap
use meritrank_rust.Prelude.IntMap.{IntMap}
use meritrank_rust.Deps.{Deps}
use meritrank_rust.Errors.{Result, ok, ◌>>=◌, ok_or, node_is_not_calculated}
use meritrank_rust.Counter
use meritrank_rust.Counter.{Counter, get_count, total_count}
use meritrank_rust.Rank.State.{MeritRank}

module _ (d : Deps) where
  abbrev pub get_personal_hits : MeritRank d → IntMap Counter
  get_personal_hits mr = mr.hits.pos_hits

  unfoldable pub score_of : Counter → Counter → ℕ → d.F
  score_of pos neg target =
      d.div (d.sub (d.of_nat (get_count pos target)) (d.of_nat (get_count neg target)))
        (d.of_nat (total_count pos + total_count neg))

  unfoldable pub get_node_score : MeritRank d → ℕ → ℕ → Result d.F
  unfolding score_of
  get_node_score mr ego target = do
    pos ← ok_or (IntMap.get ego mr.hits.pos_hits) node_is_not_calculated
    ok (score_of pos (unwrap_or (IntMap.get ego mr.hits.neg_hits) Counter.new) target)

  -- A HashSet of the keys: each once, in some order.
  unfoldable pub distinct : List ℕ → List ℕ
  distinct [] = []
  distinct (x ∷ xs) = if contains xs x then distinct xs else x ∷ distinct xs

  unfoldable pub score_all : MeritRank d → ℕ → List ℕ → Result (List (ℕ × d.F))
  score_all mr ego [] = ok []
  score_all mr ego (peer ∷ peers) = do
    score ← get_node_score mr ego peer
    rest ← score_all mr ego peers
    ok ((peer, score) ∷ rest)

  -- `sort_unstable_by` descending: an entry goes before the first of a lower score.
  unfoldable pub insert_sorted : ℕ × d.F → List (ℕ × d.F) → List (ℕ × d.F)
  insert_sorted e [] = e ∷ []
  insert_sorted e (x ∷ xs) = if d.lt x.1 e.1 then e ∷ x ∷ xs else x ∷ insert_sorted e xs

  unfoldable pub sort_scores : List (ℕ × d.F) → List (ℕ × d.F)
  unfolding insert_sorted
  sort_scores [] = []
  sort_scores (x ∷ xs) = insert_sorted x (sort_scores xs)

  unfoldable pub get_all_scores : MeritRank d → ℕ → Option ℕ → Result (List (ℕ × d.F))
  unfolding distinct sort_scores score_all
  get_all_scores mr ego limit = do
    pos ← ok_or (IntMap.get ego mr.hits.pos_hits) node_is_not_calculated
    neg ← ok_or (IntMap.get ego mr.hits.neg_hits) node_is_not_calculated
    scores ← score_all mr ego (distinct (Counter.keys pos ++ Counter.keys neg))
    ok (take (unwrap_or limit (length scores)) (sort_scores scores))
