-- ===== src/Service/Ownership.antt =====
-- service/src/helpers.rs: `prioritize_ego_owned_items`. An item is a node's info with a score and a
-- cluster, which the code does not look at. A panic is none.
pub mod Partition
use meritrank_rust.Prelude.{
  ℕ, zero, suc, ◌+◌, List, Option, none, some, Bool, true, false, ◌==◌, length, get_elem?,
  if◌then◌else◌,
}
use meritrank_rust.Prelude.Partial.{◌>>=◌, put}
use meritrank_rust.Service.NodeRegistry.{NodeInfo}

abbrev pub is_owner : Option ℕ → ℕ → Bool
is_owner none ego_id = false
is_owner (some owner) ego_id = owner == ego_id

module _ {A : Type 0} where
  -- `items.swap(i, j)`
  unfoldable pub swap : List (NodeInfo × A) → ℕ → ℕ → Option (List (NodeInfo × A))
  swap items i j = do
    x ← get_elem? items i
    y ← get_elem? items j
    once ← put items i y
    put once j x

  -- The loop, from `i` on, for as many rounds as are left.
  unfoldable pub prioritize_from :
      ℕ → ℕ → ℕ → ℕ → List (NodeInfo × A) → Option (List (NodeInfo × A))
  prioritize_from ego_id zero i insert_index items = some items
  prioritize_from ego_id (suc left) i insert_index items = do
    item ← get_elem? items i
    let owned = is_owner item.0.owner ego_id
    moved ← (if owned then swap items i insert_index else some items)
    prioritize_from ego_id left (i + 1) (if owned then insert_index + 1 else insert_index) moved

  unfoldable pub prioritize_ego_owned_items :
      List (NodeInfo × A) → NodeInfo → Option (List (NodeInfo × A))
  prioritize_ego_owned_items items ego_info = prioritize_from ego_info.id (length items) 0 0 items
