-- ===== src/Prelude/Partial.antt =====
-- Code that may panic as Option, where none is the panic, and a rule for each of its steps. Slices
-- are lists that keep their length: a read or a write out of range panics.
use meritrank_rust.Prelude.Tests.{ltb, if◌then◌else◌, lt→ltb}
use meritrank_rust.Prelude.Lists.{
  length, get_elem?, set, length-set, get_elem?-set_self, get_elem?-set_ne, get_elem?_lt_some,
}
use Prim.Native.Nat.{ℕ, ◌<◌}
use mathlib.Core.Path.{◌≡◌, refl, ap, ◌∙◌}
use mathlib.Core.Logic.{◌≢◌}
use mathlib.Core.Bool.{Bool, true, false}
use mathlib.Core.Option.{Option, none, some}
use mathlib.Core.List.{List}

infixl 5 ◌>>=◌
abbrev pub ◌>>=◌ {ℓ κ} : {A : Type ℓ} {B : Type κ} → Option A → (A → Option B) → Option B
none >>= f = none
some a >>= f = f a

abbrev pub put {ℓ} : {A : Type ℓ} → List A → ℕ → A → Option (List A)
put xs i v = if ltb i (length xs) then some (set xs i v) else none

-- The code returns, and what it returns satisfies the predicate.
pub record Returns {ℓ κ} {A : Type ℓ} (o : Option A) (Q : A → Type κ) : Type (ℓ ⊔ κ) where
  pub value : A
  pub returned : o ≡ some value
  pub fits : Q value

module _ {ℓ κ} {A : Type ℓ} {Q : A → Type κ} where
  pub some-Returns : (a : A) → Q a → Returns (some a) Q
  some-Returns a q = record { value = a; returned = refl; fits = q }

  pub bind-Returns {μ ν} :
      {B : Type μ} {R : B → Type ν} {o : Option A} {f : A → Option B}
      → Returns o Q
      → ((a : A) → Q a → Returns (f a) R)
      → Returns (o >>= f) R
  bind-Returns {R} {f} r k =
      let next = k r.value r.fits in
      record {
        value = next.value;
        returned = ap (λ o. o >>= f) r.returned ∙ next.returned;
        fits = next.fits;
      }

  pub if-Returns :
      (b : Bool) {x y : Option A}
      → (b ≡ true → Returns x Q)
      → (b ≡ false → Returns y Q)
      → Returns (if b then x else y) Q
  if-Returns true f g = f refl
  if-Returns false f g = g refl

pub map-Returns {ℓ κ μ} :
    {A : Type ℓ} {Q : A → Type κ} {R : A → Type μ} {o : Option A}
    → Returns o Q
    → ((a : A) → Q a → R a)
    → Returns o R
map-Returns r f = record { value = r.value; returned = r.returned; fits = f r.value r.fits }

pub some_injective {ℓ} : {A : Type ℓ} {a b : A} → some a ≡ some b → a ≡ b
some_injective e = cc

-- What a slice holds after a write.
pub record IsWritten {ℓ} {A : Type ℓ} (xs : List A) (i : ℕ) (v : A) (ys : List A) : Type ℓ where
  pub exact : ys ≡ set xs i v
  pub same_length : length ys ≡ length xs
  pub written : get_elem? ys i ≡ some v
  pub others : (j : ℕ) → i ≢ j → get_elem? ys j ≡ get_elem? xs j

module _ {ℓ} {A : Type ℓ} where
  pub put-Returns :
      (xs : List A) (i : ℕ) (v : A) → i < length xs → Returns (put xs i v) (IsWritten xs i v)
  put-Returns xs i v h = record {
    value = set xs i v;
    returned = ap (λ b. if b then some (set xs i v) else none) (lt→ltb i (length xs) h);
    fits = record {
      exact = refl;
      same_length = length-set xs i v;
      written = get_elem?-set_self xs i v h;
      others = λ j. get_elem?-set_ne xs i j v;
    };
  }

  pub get-Returns :
      (xs : List A) (i : ℕ)
      → i < length xs
      → Returns (get_elem? xs i) (λ v. get_elem? xs i ≡ some v)
  get-Returns xs i h =
      let (v, e) = get_elem?_lt_some xs i h in record { value = v; returned = e; fits = e }

  pub at-Returns :
      (xs : List A) (i : ℕ) (v : A)
      → get_elem? xs i ≡ some v
      → Returns (get_elem? xs i) (λ u. u ≡ v)
  at-Returns xs i v e = record { value = v; returned = e; fits = refl }
