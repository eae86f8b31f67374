-- ===== src/Service/Vsids/Magnitudes.antt =====
-- service/src/vsids.rs: the difference of magnitudes under wrapping.
use meritrank_rust.Prelude.{
  ℕ, ◌+◌, ◌-◌, ◌%◌, ◌<◌, ◌≤◌, ◌≡◌, refl, ap, ◌∙◌, inl, inr, some, false, if◌then◌else◌, ltb, leb,
  arith, Bool-cases, ltb→lt, ltb→le,
}
use meritrank_rust.Service.Vsids.{ℤ, pos, negsuc, u32_values, i32_half, as_i32, subtract}

-- a - b as an integer
abbrev pub difference : ℕ → ℕ → ℤ
difference a b = if leb b a then pos (a - b) else negsuc (b - a - 1)

wrapped_up : (a b : ℕ) → b ≤ a → a < u32_values → (a + (u32_values - b)) % u32_values ≡ a - b
wrapped_up a b le lt = omega arith

wrapped_down :
    (a b : ℕ) → a < b → b < u32_values → (a + (u32_values - b)) % u32_values ≡ a + (u32_values - b)
wrapped_down a b lt lt' = omega arith

up_as_i32 : (a b : ℕ) → b ≤ a → a < b + i32_half → as_i32 (a - b) ≡ difference a b
unfolding as_i32
up_as_i32 a b le lt = ground arith

down_as_i32 :
    (a b : ℕ)
    → a < b
    → b < u32_values
    → b ≤ a + i32_half
    → as_i32 (a + (u32_values - b)) ≡ difference a b
unfolding as_i32
down_as_i32 a b lt small high = ground (arith, ap negsuc)

wrapped_as_i32 :
    (a b : ℕ)
    → a < u32_values
    → b < u32_values
    → a < b + i32_half
    → b ≤ a + i32_half
    → as_i32 ((a + (u32_values - b)) % u32_values) ≡ difference a b
wrapped_as_i32 a b small small' low high = elim (Bool-cases (ltb a b)) [
  | inl e ↦
      ap as_i32 (wrapped_down a b (ltb→lt a b e) small')
      ∙ down_as_i32 a b (ltb→lt a b e) small' high
  | inr e ↦ ap as_i32 (wrapped_up a b (ltb→le a b e) small) ∙ up_as_i32 a b (ltb→le a b e) low
]

pub small_as_i32 : (n : ℕ) → n < i32_half → as_i32 n ≡ pos n
unfolding as_i32
small_as_i32 n h = ground arith

-- The difference that the code computes is that of the magnitudes, if it fits 32 bits.
pub subtract-as_i32 :
    (a b : ℕ)
    → a < u32_values
    → b < u32_values
    → a < b + i32_half
    → b ≤ a + i32_half
    → (w : ℕ) × (subtract false a b ≡ some w) × (as_i32 w ≡ difference a b)
unfolding subtract as_i32
subtract-as_i32 a b small small' low high =
    ((a + (u32_values - b)) % u32_values, refl, wrapped_as_i32 a b small small' low high)
