-- ===== src/Deps.antt =====
-- What the core crate uses and does not implement, as interfaces: f64 arithmetic, and the crates
-- rand, indexmap and tinyset. The laws state documented behaviour of these.
use meritrank_rust.Prelude.{
  ℕ, ◌<◌, ◌≡◌, Bool, false, Option, none, some, List, if◌then◌else◌, ◌==◌, contains, count, length,
}
use meritrank_rust.Prelude.IntMap

-- f64. Arithmetic is left abstract; only sign tests have laws.
pub record Float : Type 1 where
  pub F : Type 0
  pub zero : F
  pub add : F → F → F
  pub sub : F → F → F
  pub mul : F → F → F
  pub div : F → F → F
  pub neg : F → F
  pub abs : F → F
  -- `a < b` and `a == b`; both are false on NaN
  pub lt : F → F → Bool
  pub eq : F → F → Bool
  pub is_nan : F → Bool
  pub is_infinite : F → Bool
  -- `n as f64`
  pub of_nat : ℕ → F
  -- the literals 1e-6 and 0.85
  pub epsilon : F
  pub default_alpha : F
  -- a number that is neither NaN, nor zero, nor positive is negative
  pub neg-abs : (x : F) → is_nan x ≡ false → eq x zero ≡ false → lt zero x ≡ false → neg (abs x) ≡ x

-- `IndexMap<usize, V>`: a hash table that also keeps its entries in an order.
pub record IndexMap (V : Type 0) : Type 1 where
  pub Map : Type 0
  pub empty : Map
  pub get : ℕ → Map → Option V
  pub insert : ℕ → V → Map → Map
  -- the map that `swap_remove` leaves; what it returns is `get` before
  pub swap_remove : ℕ → Map → Map
  pub entries : Map → List (ℕ × V)
  pub get-empty : (j : ℕ) → get j empty ≡ none
  pub get-insert :
      (j k : ℕ) (v : V) (m : Map) → get j (insert k v m) ≡ (if k == j then some v else get j m)
  pub get-swap_remove :
      (j k : ℕ) (m : Map) → get j (swap_remove k m) ≡ (if k == j then none else get j m)
  -- an absent key leaves the map as it is
  pub swap_remove_absent : (k : ℕ) (m : Map) → get k m ≡ none → swap_remove k m ≡ m
  pub get-entries : (j : ℕ) (m : Map) → IntMap.get j (entries m) ≡ get j m

-- rand: the thread's generator, and `WeightedIndex`, which refuses an unfit list of weights.
pub record Rng (F : Type 0) : Type 1 where
  pub State : Type 0
  pub random : State → F × State
  pub WeightedIndex : Type 0
  pub weighted_index : List F → Option WeightedIndex
  pub sample : WeightedIndex → State → ℕ × State
  -- an index is drawn within the list
  pub sample-lt :
      (ws : List F) (d : WeightedIndex) (s : State)
      → weighted_index ws ≡ some d
      → (sample d s).0 < length ws

-- tinyset: `SetUsize::from_iter`, as the list that the set is walked in.
pub record NodeSet : Type 0 where
  pub from_iter : List ℕ → List ℕ
  pub count-from_iter :
      (x : ℕ) (xs : List ℕ) → count x (from_iter xs) ≡ (if contains xs x then 1 else 0)

pub record Deps : Type 1 where
  pub floats : Float
  pub open floats use *
  pub edges : IndexMap floats.F
  pub rng : Rng floats.F
  pub sets : NodeSet
