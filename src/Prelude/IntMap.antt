-- ===== src/Prelude/IntMap.antt =====
-- `IntMap<usize, V>`: the standard HashMap under an integer hasher, as an association list. An
-- insertion overwrites in place; the laws below are all that the rest of the development uses.
use Prim.Native.Nat.{ℕ, zero, suc}
use mathlib.Core.Path.{◌≡◌, refl}
use mathlib.Core.Bool.{true}
use mathlib.Core.List.{List, [], ◌∷◌, map}
use mathlib.Core.Option.{Option, none, some}
use native.Mathlib.Omega.{arith}
use meritrank_rust.Prelude.Lists.{get_elem?}
use meritrank_rust.Prelude.Tests.{is_some, ◌==◌, if◌then◌else◌}

abbrev pub IntMap {ℓ} : Type ℓ → Type ℓ
IntMap V = List (ℕ × V)

module _ {ℓ} {V : Type ℓ} where
  abbrev pub get : ℕ → IntMap V → Option V
  get k [] = none
  get k ((j, v) ∷ m) = if j == k then some v else get k m

  abbrev pub insert : ℕ → V → IntMap V → IntMap V
  insert k v [] = (k, v) ∷ []
  insert k v ((i, old) ∷ m) = if i == k then (k, v) ∷ m else (i, old) ∷ insert k v m

  abbrev pub remove : ℕ → IntMap V → IntMap V
  remove k [] = []
  remove k ((j, w) ∷ m) = if j == k then remove k m else (j, w) ∷ remove k m

  abbrev pub keys : IntMap V → List ℕ
  keys [] = []
  keys ((j, v) ∷ m) = j ∷ keys m

  pub get-insert :
      (j k : ℕ) (v : V) (m : IntMap V) → get j (insert k v m) ≡ (if k == j then some v else get j m)
  get-insert j k v [] = refl
  get-insert j k v ((i, w) ∷ m) = ground (arith, get-insert j k v m)

  pub get-remove :
      (j k : ℕ) (m : IntMap V) → get j (remove k m) ≡ (if k == j then none else get j m)
  get-remove j k [] = ground arith
  get-remove j k ((i, w) ∷ m) = ground (arith, get-remove j k m)

  -- A key at any place of the table is found.
  pub get_of_key :
      (m : IntMap V) (i k : ℕ) → get_elem? (map (λ e. e.0) m) i ≡ some k → is_some (get k m) ≡ true
  get_of_key [] i k h = cc
  get_of_key ((j, v) ∷ m) zero k h = ground arith
  get_of_key ((j, v) ∷ m) (suc i) k h = ground (arith, get_of_key m i k h)
