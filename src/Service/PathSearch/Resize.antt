-- ===== src/Service/PathSearch/Resize.antt =====
-- service/src/helpers.rs: what a vector holds after `resize`, and other lemmas on its lists.
use meritrank_rust.Prelude.{
  ℕ, zero, suc, ◌-◌, ◌<◌, ◌≡◌, refl, sym, ap, ◌∙◌, List, [], ◌∷◌, ◌++◌, some, if◌then◌else◌, length,
  get_elem?, arith, take, replicate, length-replicate, length-append, length-take, get_elem?-append,
  lt→ltb, take-append-drop, drop, map,
}
use meritrank_rust.Prelude.Partial.{some_injective}
use meritrank_rust.Service.PathSearch.{resize}

pub length-resize {ℓ} : {A : Type ℓ} (n : ℕ) (a : A) (xs : List A) → length (resize n a xs) ≡ n
length-resize n a xs = omega (
  arith,
  length-append (take n xs) (replicate (n - length xs) a),
  length-take n xs,
  length-replicate (n - length xs) a,
)

get_elem?-take-append {ℓ} :
    {A : Type ℓ} (n : ℕ) (xs ys : List A) (j : ℕ)
    → j < n
    → j < length xs
    → get_elem? (take n xs ++ ys) j ≡ get_elem? (take n xs) j
get_elem?-take-append n xs ys j lt le =
    get_elem?-append (take n xs) ys j
    ∙ ap (λ b. if b then get_elem? (take n xs) j else get_elem? ys (j - length (take n xs)))
        (lt→ltb j (length (take n xs)) (omega (arith, length-take n xs)))

pub get_elem?-resize {ℓ} :
    {A : Type ℓ} (n : ℕ) (a : A) (xs : List A) (j : ℕ)
    → j < n
    → j < length xs
    → get_elem? (resize n a xs) j ≡ get_elem? xs j
get_elem?-resize n a xs j lt le =
    get_elem?-take-append n xs (replicate (n - length xs) a) j lt le
    ∙ sym (get_elem?-take-append n xs (drop n xs) j lt le)
    ∙ ap (λ ys. get_elem? ys j) (take-append-drop n xs)

pub get_elem?-keys {ℓ} :
    {V : Type ℓ} (m : List (ℕ × V)) (i : ℕ) (e : ℕ × V)
    → get_elem? m i ≡ some e
    → get_elem? (map (λ e. e.0) m) i ≡ some e.0
get_elem?-keys [] i e h = cc
get_elem?-keys (x ∷ m) zero e h = ap some (ap (λ e. e.0) (some_injective h))
get_elem?-keys (x ∷ m) (suc i) e h = get_elem?-keys m i e h

pub nil_of_length {ℓ} : {A : Type ℓ} (xs : List A) → length xs ≡ 0 → xs ≡ []
nil_of_length [] e = refl
nil_of_length (x ∷ xs) e = absurd (omega arith)
