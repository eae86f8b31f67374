-- ===== src/Prelude/Lists.antt =====
-- Lists measured and indexed by native numbers, under the library's names; `Vec` of the source.
use Prim.Native.Nat.{ℕ, zero, suc, ◌+◌, ◌-◌, ◌≤◌, ◌<◌, min}
use Prim.Native.Nat.add
use mathlib.Core.Path.{◌≡◌, refl, ap}
use mathlib.Core.Logic.{◌≢◌, inl, inr}
use mathlib.Core.Bool.{Bool, true, false, ◌||◌}
use mathlib.Core.List.{List, [], ◌∷◌, ◌++◌, map}
use mathlib.Core.Option.{Option, none, some}
use native.Mathlib.Omega.{arith}
use meritrank_rust.Prelude.Tests.{Bool-cases, Option-cases, ◌==◌, ltb, if◌then◌else◌}

sub_none : (j : ℕ) → j ≡ j - 0
sub_none j = omega arith

module _ {ℓ} {A : Type ℓ} where
  abbrev pub length : List A → ℕ
  length [] = 0
  length (x ∷ xs) = suc (length xs)

  abbrev pub is_empty : List A → Bool
  is_empty [] = true
  is_empty (x ∷ xs) = false

  abbrev pub get_elem? : List A → ℕ → Option A
  get_elem? [] i = none
  get_elem? (x ∷ xs) zero = some x
  get_elem? (x ∷ xs) (suc i) = get_elem? xs i

  -- A write out of bounds changes nothing.
  abbrev pub set : List A → ℕ → A → List A
  set [] i v = []
  set (x ∷ xs) zero v = v ∷ xs
  set (x ∷ xs) (suc i) v = x ∷ set xs i v

  abbrev pub take : ℕ → List A → List A
  take zero xs = []
  take (suc n) [] = []
  take (suc n) (x ∷ xs) = x ∷ take n xs

  abbrev pub drop : ℕ → List A → List A
  drop zero xs = xs
  drop (suc n) [] = []
  drop (suc n) (x ∷ xs) = drop n xs

  abbrev pub replicate : ℕ → A → List A
  replicate zero a = []
  replicate (suc n) a = a ∷ replicate n a

  abbrev pub head? : List A → Option A
  head? [] = none
  head? (x ∷ xs) = some x

  abbrev pub last? : List A → Option A
  last? [] = none
  last? (x ∷ []) = some x
  last? (x ∷ y ∷ xs) = last? (y ∷ xs)

  pub length-append : (xs ys : List A) → length (xs ++ ys) ≡ length xs + length ys
  length-append [] ys = omega arith
  length-append (x ∷ xs) ys = omega (arith, length-append xs ys)

  pub length-set : (xs : List A) (i : ℕ) (v : A) → length (set xs i v) ≡ length xs
  length-set [] i v = refl
  length-set (x ∷ xs) zero v = refl
  length-set (x ∷ xs) (suc i) v = ap suc (length-set xs i v)

  pub get_elem?-set_self :
      (xs : List A) (i : ℕ) (v : A) → i < length xs → get_elem? (set xs i v) i ≡ some v
  get_elem?-set_self [] i v h = elim h [ ]
  get_elem?-set_self (x ∷ xs) zero v h = refl
  get_elem?-set_self (x ∷ xs) (suc i) v h = get_elem?-set_self xs i v (omega arith)

  pub get_elem?-set_ne :
      (xs : List A) (i j : ℕ) (v : A) → i ≢ j → get_elem? (set xs i v) j ≡ get_elem? xs j
  get_elem?-set_ne [] i j v h = refl
  get_elem?-set_ne (x ∷ xs) zero zero v h = absurd (h refl)
  get_elem?-set_ne (x ∷ xs) zero (suc j) v h = refl
  get_elem?-set_ne (x ∷ xs) (suc i) zero v h = refl
  get_elem?-set_ne (x ∷ xs) (suc i) (suc j) v h = get_elem?-set_ne xs i j v (λ e. h (ap suc e))

  -- A write within bounds, read anywhere.
  pub get_elem?-set :
      (xs : List A) (i j : ℕ) (u v : A)
      → get_elem? xs i ≡ some u
      → get_elem? (set xs i v) j ≡ (if i == j then some v else get_elem? xs j)
  get_elem?-set [] i j u v h = cc
  get_elem?-set (x ∷ xs) zero zero u v h = refl
  get_elem?-set (x ∷ xs) zero (suc j) u v h = ground arith
  get_elem?-set (x ∷ xs) (suc i) zero u v h = ground arith
  get_elem?-set (x ∷ xs) (suc i) (suc j) u v h = ground (arith, get_elem?-set xs i j u v h)

  pub get_elem?-append :
      (xs ys : List A) (j : ℕ)
      → get_elem? (xs ++ ys) j
        ≡ (if ltb j (length xs) then get_elem? xs j else get_elem? ys (j - length xs))
  get_elem?-append [] ys j = ground (arith, ap (get_elem? ys) (sub_none j))
  get_elem?-append (x ∷ xs) ys zero = ground arith
  get_elem?-append (x ∷ xs) ys (suc j) = ground (arith, get_elem?-append xs ys j)

  pub length-replicate : (n : ℕ) (a : A) → length (replicate n a) ≡ n
  length-replicate zero a = refl
  length-replicate (suc n) a = ap suc (length-replicate n a)

  pub get_elem?-replicate :
      (n : ℕ) (a : A) (j : ℕ) → get_elem? (replicate n a) j ≡ (if ltb j n then some a else none)
  get_elem?-replicate zero a j = ground arith
  get_elem?-replicate (suc n) a zero = ground arith
  get_elem?-replicate (suc n) a (suc j) = ground (arith, get_elem?-replicate n a j)

  -- A push, read anywhere.
  pub get_elem?-snoc :
      (xs : List A) (v : A) (j : ℕ)
      → get_elem? (xs ++ v ∷ []) j ≡ (if length xs == j then some v else get_elem? xs j)
  get_elem?-snoc [] v zero = refl
  get_elem?-snoc [] v (suc j) = ground arith
  get_elem?-snoc (x ∷ xs) v zero = ground arith
  get_elem?-snoc (x ∷ xs) v (suc j) = ground (arith, get_elem?-snoc xs v j)

  pub set_self : (xs : List A) (i : ℕ) (u : A) → get_elem? xs i ≡ some u → set xs i u ≡ xs
  set_self [] i u h = refl
  set_self (x ∷ xs) zero u h = ground arith
  set_self (x ∷ xs) (suc i) u h = ap (◌∷◌ x) (set_self xs i u h)

  pub take-append-drop : (n : ℕ) (xs : List A) → take n xs ++ drop n xs ≡ xs
  take-append-drop zero xs = refl
  take-append-drop (suc n) [] = refl
  take-append-drop (suc n) (x ∷ xs) = rw (take-append-drop n xs)

  pub length-take : (n : ℕ) (xs : List A) → length (take n xs) ≡ min n (length xs)
  length-take zero xs = omega arith
  length-take (suc n) [] = omega arith
  length-take (suc n) (x ∷ xs) = omega (arith, length-take n xs)

  pub length-drop : (n : ℕ) (xs : List A) → length (drop n xs) ≡ length xs - n
  length-drop zero xs = omega arith
  length-drop (suc n) [] = omega arith
  length-drop (suc n) (x ∷ xs) = omega (arith, length-drop n xs)

  pub take-length : (xs : List A) → take (length xs) xs ≡ xs
  take-length [] = refl
  take-length (x ∷ xs) = ap (◌∷◌ x) (take-length xs)

  pub drop-length : (xs : List A) → drop (length xs) xs ≡ []
  drop-length [] = refl
  drop-length (x ∷ xs) = drop-length xs

  pub take-append-take-drop :
      (m k : ℕ) (xs : List A) → take m xs ++ take k (drop m xs) ≡ take (m + k) xs
  take-append-take-drop zero k xs = rw add.zero
  take-append-take-drop (suc m) zero [] = rw add.suc
  take-append-take-drop (suc m) (suc k) [] = rw add.suc
  take-append-take-drop (suc m) k (x ∷ xs) = rw add.suc (ap (◌∷◌ x) (take-append-take-drop m k xs))

  pub drop-drop : (m k : ℕ) (xs : List A) → drop k (drop m xs) ≡ drop (m + k) xs
  drop-drop zero k xs = rw add.zero
  drop-drop (suc m) zero [] = rw add.suc
  drop-drop (suc m) (suc k) [] = rw add.suc
  drop-drop (suc m) k (x ∷ xs) = rw add.suc (drop-drop m k xs)

  pub take_of_length-le : (n : ℕ) (xs : List A) → length xs ≤ n → take n xs ≡ xs
  take_of_length-le zero [] h = refl
  take_of_length-le (suc n) [] h = refl
  take_of_length-le zero (x ∷ xs) h = absurd (omega arith)
  take_of_length-le (suc n) (x ∷ xs) h = rw (take_of_length-le n xs (omega arith)) refl

  pub take-take : (b m : ℕ) (xs : List A) → b ≤ m → take b (take m xs) ≡ take b xs
  take-take zero m xs h = refl
  take-take (suc b) zero xs h = absurd (omega arith)
  take-take (suc b) (suc m) [] h = refl
  take-take (suc b) (suc m) (x ∷ xs) h = ap (◌∷◌ x) (take-take b m xs (omega arith))

  pub drop-take-append :
      (b m : ℕ) (xs : List A) → b ≤ m → drop b (take m xs) ++ drop m xs ≡ drop b xs
  drop-take-append zero m xs h = take-append-drop m xs
  drop-take-append (suc b) zero xs h = absurd (omega arith)
  drop-take-append (suc b) (suc m) [] h = refl
  drop-take-append (suc b) (suc m) (x ∷ xs) h = drop-take-append b m xs (omega arith)

  pub lt-length_of_get_elem? :
      (xs : List A) (i : ℕ) (v : A) → get_elem? xs i ≡ some v → i < length xs
  lt-length_of_get_elem? [] i v h = cc
  lt-length_of_get_elem? (x ∷ xs) zero v h = omega arith
  lt-length_of_get_elem? (x ∷ xs) (suc i) v h = omega (arith, lt-length_of_get_elem? xs i v h)

  pub get_elem?_lt_some :
      (xs : List A) (i : ℕ) → i < length xs → (v : A) × (get_elem? xs i ≡ some v)
  get_elem?_lt_some [] i h = elim h [ ]
  get_elem?_lt_some (x ∷ xs) zero h = (x, refl)
  get_elem?_lt_some (x ∷ xs) (suc i) h = get_elem?_lt_some xs i (omega arith)

  pub get_elem?_ge_none : (xs : List A) (i : ℕ) → length xs ≤ i → get_elem? xs i ≡ none
  get_elem?_ge_none [] i h = refl
  get_elem?_ge_none (x ∷ xs) zero h = absurd (omega arith)
  get_elem?_ge_none (x ∷ xs) (suc i) h = get_elem?_ge_none xs i (omega arith)

pub length-map {ℓ κ} :
    {A : Type ℓ} {B : Type κ} (f : A → B) (xs : List A) → length (map f xs) ≡ length xs
length-map f [] = refl
length-map f (x ∷ xs) = ap suc (length-map f xs)

-- Membership and multiplicity of node ids.
abbrev pub contains : List ℕ → ℕ → Bool
contains [] x = false
contains (y ∷ ys) x = y == x || contains ys x

abbrev pub count : ℕ → List ℕ → ℕ
count x [] = 0
count x (y ∷ ys) = if y == x then suc (count x ys) else count x ys

abbrev pub next : Option ℕ → Option ℕ
next none = none
next (some i) = some (suc i)

-- The position of the first occurrence.
abbrev pub find_index : ℕ → List ℕ → Option ℕ
find_index x [] = none
find_index x (y ∷ ys) = if y == x then some 0 else next (find_index x ys)

-- A position `n` further on, and the first of two findings.
abbrev pub after : ℕ → Option ℕ → Option ℕ
after n none = none
after n (some i) = some (n + i)

abbrev pub first_some {ℓ} : {A : Type ℓ} → Option A → Option A → Option A
first_some (some a) o = some a
first_some none o = o

pub after-next : (n : ℕ) (o : Option ℕ) → after n (next o) ≡ after (n + 1) o
after-next n none = refl
after-next n (some i) = ap some (omega arith)

pub next-after : (n : ℕ) (o : Option ℕ) → next (after n o) ≡ after (suc n) o
next-after n none = refl
next-after n (some i) = ap some (omega arith)

pub after-zero : (o : Option ℕ) → after 0 o ≡ o
after-zero none = refl
after-zero (some i) = ap some (omega arith)

pub next-first_some : (a b : Option ℕ) → next (first_some a b) ≡ first_some (next a) (next b)
next-first_some none b = refl
next-first_some (some i) b = refl

-- A node is first met in the first part of a list that has it.
pub find_index-append :
    (x : ℕ) (xs ys : List ℕ)
    → find_index x (xs ++ ys) ≡ first_some (find_index x xs) (after (length xs) (find_index x ys))
find_index-append x [] ys = ground (arith, after-zero (find_index x ys))
find_index-append x (y ∷ xs) ys = ground (
  arith,
  find_index-append x xs ys,
  next-first_some (find_index x xs) (after (length xs) (find_index x ys)),
  next-after (length xs) (find_index x ys),
)

pub find_index-eq-none : (x : ℕ) (xs : List ℕ) → contains xs x ≡ false → find_index x xs ≡ none
find_index-eq-none x [] h = refl
find_index-eq-none x (y ∷ ys) h = ground (arith, find_index-eq-none x ys)

pub find_index-ne-none :
    (x : ℕ) (xs : List ℕ) → contains xs x ≡ true → (i : ℕ) × (find_index x xs ≡ some i)
find_index-ne-none x [] h = cc
find_index-ne-none x (y ∷ ys) h = elim (Bool-cases (y == x)) [
  | inl e ↦ (0, ground arith)
  | inr e ↦ let (i, f) = find_index-ne-none x ys (ground arith) in (suc i, ground arith)
]

pub find_index_found :
    (x : ℕ) (xs : List ℕ) (i : ℕ) → find_index x xs ≡ some i → get_elem? xs i ≡ some x
find_index_found x [] i h = cc
find_index_found x (y ∷ ys) zero h = elim (Option-cases (find_index x ys)) [
  | inl e ↦ ground arith
  | inr (k, e) ↦ ground arith
]
find_index_found x (y ∷ ys) (suc i) h = elim (Option-cases (find_index x ys)) [
  | inl e ↦ absurd (ground arith)
  | inr (k, e) ↦ let same : k ≡ i = ground arith in find_index_found x ys i (ground arith)
]
