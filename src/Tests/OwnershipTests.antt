-- ===== src/Tests/OwnershipTests.antt =====
-- The order of service/src/helpers.rs's `prioritize_ego_owned_items` at four items.
use meritrank_rust.Prelude.{ℕ, ◌≡◌, refl, List, [], ◌∷◌, Option, none, some}
use meritrank_rust.Prelude.Partial.{Returns}
use meritrank_rust.Service.NodeRegistry.{NodeInfo, comment}
use meritrank_rust.Service.Ownership.{prioritize_ego_owned_items, prioritize_from, swap}
use meritrank_rust.Service.Ownership.Partition.{
  IsPrioritized, prioritize_ego_owned_items-IsPrioritized,
}

abbrev info : ℕ → Option ℕ → NodeInfo
info id owner = record { id = id; name = []; kind = comment; owner = owner }

-- Two items of node 1, behind one of node 2 and one of nobody.
abbrev items : List (NodeInfo × ℕ)
items =
    (info 5 (some 2), 50) ∷ (info 6 (some 1), 60) ∷ (info 7 none, 70) ∷ (info 8 (some 1), 80) ∷ []

ordered :
    prioritize_ego_owned_items items (info 1 none)
    ≡ some (
        (info 6 (some 1), 60)
        ∷ (info 8 (some 1), 80)
        ∷ (info 7 none, 70)
        ∷ (info 5 (some 2), 50)
        ∷ [])
unfolding prioritize_ego_owned_items prioritize_from swap
ordered = refl

prioritize_ego_owned_items-IsPrioritized_example :
    Returns (prioritize_ego_owned_items items (info 1 none)) (IsPrioritized 1 items)
prioritize_ego_owned_items-IsPrioritized_example =
    prioritize_ego_owned_items-IsPrioritized items (info 1 none)
