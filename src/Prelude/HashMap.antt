-- ===== src/Prelude/HashMap.antt =====
-- `HashMap<K, V>` for keys with a Boolean test of equality, as an association list.
use mathlib.Core.Path.{◌≡◌, refl}
use mathlib.Core.Bool.{Bool, true}
use mathlib.Core.List.{List, [], ◌∷◌}
use mathlib.Core.Option.{Option, none, some}
use native.Mathlib.Omega.{arith}
use meritrank_rust.Prelude.Tests.{if◌then◌else◌}

-- A type of keys: the test is equality.
pub record Key : Type 1 where
  pub K : Type 0
  pub same : K → K → Bool
  pub same_true : (a b : K) → same a b ≡ true → a ≡ b
  pub same_self : (a : K) → same a a ≡ true

module _ (key : Key) {V : Type 0} where
  open key use {K, same, same_true, same_self}

  abbrev pub get : K → List (K × V) → Option V
  get k [] = none
  get k ((j, v) ∷ m) = if same j k then some v else get k m

  abbrev pub insert : K → V → List (K × V) → List (K × V)
  insert k v [] = (k, v) ∷ []
  insert k v ((j, old) ∷ m) = if same j k then (k, v) ∷ m else (j, old) ∷ insert k v m

  pub get-insert :
      (j k : K) (v : V) (m : List (K × V))
      → get j (insert k v m) ≡ (if same k j then some v else get j m)
  get-insert j k v [] = refl
  get-insert j k v ((i, w) ∷ m) =
      ground (arith, get-insert j k v m, same_true i k, same_true k j, same_true i j, same_self k)
