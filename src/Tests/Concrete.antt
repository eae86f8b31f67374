-- ===== src/Tests/Concrete.antt =====
-- The interfaces of Deps at concrete functions: integers with infinities and NaN for f64, a tape of
-- draws for the generator, association lists for the tables.
use meritrank_rust.Prelude.{
  ℕ, zero, suc, ◌+◌, ◌-◌, ◌%◌, ◌<◌, ◌≡◌, refl, Bool, true, false, not, Option, none, some, List, [],
  ◌∷◌, if◌then◌else◌, ◌==◌, ltb, leb, contains, count, length, arith,
}
use meritrank_rust.Prelude.IntMap
use meritrank_rust.Prelude.IntMap.{IntMap}
use meritrank_rust.Deps.{Float, IndexMap, Rng, NodeSet, Deps}

-- `negsuc n` is -(n + 1); `inf true` is the positive infinity.
pub data Num : Type 0 where
  nan : Num
  inf : Bool → Num
  pos : ℕ → Num
  negsuc : ℕ → Num

abbrev pub difference : ℕ → ℕ → Num
difference a b = if leb b a then pos (a - b) else negsuc (b - a - 1)

abbrev pub neg : Num → Num
neg nan = nan
neg (inf b) = inf (not b)
neg (pos zero) = pos 0
neg (pos (suc n)) = negsuc n
neg (negsuc n) = pos (suc n)

abbrev pub abs : Num → Num
abs nan = nan
abs (inf b) = inf true
abs (pos n) = pos n
abs (negsuc n) = pos (suc n)

abbrev pub add : Num → Num → Num
add nan y = nan
add (inf b) nan = nan
add (inf true) (inf false) = nan
add (inf false) (inf true) = nan
add (inf b) y = inf b
add (pos m) nan = nan
add (pos m) (inf b) = inf b
add (pos m) (pos n) = pos (m + n)
add (pos m) (negsuc n) = difference m (suc n)
add (negsuc m) nan = nan
add (negsuc m) (inf b) = inf b
add (negsuc m) (pos n) = difference n (suc m)
add (negsuc m) (negsuc n) = negsuc (m + n + 1)

abbrev pub lt : Num → Num → Bool
lt nan y = false
lt (inf b) nan = false
lt (inf true) y = false
lt (inf false) (inf b) = b
lt (inf false) (pos n) = true
lt (inf false) (negsuc n) = true
lt (pos m) nan = false
lt (pos m) (inf b) = b
lt (pos m) (pos n) = ltb m n
lt (pos m) (negsuc n) = false
lt (negsuc m) nan = false
lt (negsuc m) (inf b) = b
lt (negsuc m) (pos n) = true
lt (negsuc m) (negsuc n) = ltb n m

abbrev pub eq : Num → Num → Bool
eq (inf true) (inf b) = b
eq (inf false) (inf b) = not b
eq (pos m) (pos n) = m == n
eq (negsuc m) (negsuc n) = m == n
eq _ _ = false

abbrev pub is_nan : Num → Bool
is_nan nan = true
is_nan _ = false

abbrev pub is_infinite : Num → Bool
is_infinite (inf b) = true
is_infinite _ = false

pub neg-abs :
    (x : Num) → is_nan x ≡ false → eq x (pos 0) ≡ false → lt (pos 0) x ≡ false → neg (abs x) ≡ x
neg-abs nan p q r = cc
neg-abs (inf true) p q r = cc
neg-abs (inf false) p q r = refl
neg-abs (pos zero) p q r = absurd (ground arith)
neg-abs (pos (suc n)) p q r = absurd (ground arith)
neg-abs (negsuc n) p q r = refl

-- Products and quotients are not run in any test: any function will do for them.
abbrev pub numbers : Float
numbers = record {
  F = Num;
  zero = pos 0;
  add = add;
  sub = λ x y. add x (neg y);
  mul = λ x y. x;
  div = λ x y. x;
  neg = neg;
  abs = abs;
  lt = lt;
  eq = eq;
  is_nan = is_nan;
  is_infinite = is_infinite;
  of_nat = pos;
  epsilon = pos 1;
  default_alpha = pos 85;
  neg-abs = neg-abs;
}

pub swap_remove_absent :
    {V : Type 0} (k : ℕ) (m : IntMap V) → IntMap.get k m ≡ none → IntMap.remove k m ≡ m
swap_remove_absent k [] h = refl
swap_remove_absent k ((j, v) ∷ m) h = ground (arith, swap_remove_absent k m)

abbrev pub table : (V : Type 0) → IndexMap V
table V = record {
  Map = IntMap V;
  empty = [];
  get = IntMap.get;
  insert = IntMap.insert;
  swap_remove = IntMap.remove;
  entries = λ m. m;
  get-empty = λ j. refl;
  get-insert = IntMap.get-insert;
  get-swap_remove = IntMap.get-remove;
  swap_remove_absent = swap_remove_absent;
  get-entries = λ j m. refl;
}

-- A distribution is the number of its weights.
abbrev pub weighted_index : List Num → Option ℕ
weighted_index [] = none
weighted_index (w ∷ ws) = some (suc (length ws))

abbrev pub sample : ℕ → List ℕ → ℕ × List ℕ
sample wi [] = (0, [])
sample wi (x ∷ tape) = (x % wi, tape)

abbrev pub random : List ℕ → Num × List ℕ
random [] = (pos 1000, [])
random (x ∷ tape) = (pos x, tape)

pub sample-lt :
    (ws : List Num) (wi : ℕ) (s : List ℕ)
    → weighted_index ws ≡ some wi
    → (sample wi s).0 < length ws
sample-lt [] wi s h = cc
sample-lt (w ∷ ws) wi [] h = omega arith
sample-lt (w ∷ ws) wi (x ∷ s) h =
    let e : suc (length ws) ≡ wi = ground arith in rw (← e) (ground arith)

abbrev pub tape : Rng Num
tape = record {
  State = List ℕ;
  random = random;
  WeightedIndex = ℕ;
  weighted_index = weighted_index;
  sample = sample;
  sample-lt = sample-lt;
}

abbrev pub from_iter : List ℕ → List ℕ
from_iter [] = []
from_iter (x ∷ xs) = if contains xs x then from_iter xs else x ∷ from_iter xs

pub count-from_iter :
    (x : ℕ) (xs : List ℕ) → count x (from_iter xs) ≡ (if contains xs x then 1 else 0)
count-from_iter x [] = refl
count-from_iter x (y ∷ xs) = ground (arith, count-from_iter x xs)

abbrev pub listed : NodeSet
listed = record { from_iter = from_iter; count-from_iter = count-from_iter }

abbrev pub deps : Deps
deps = record { floats = numbers; edges = table Num; rng = tape; sets = listed }
