-- ===== src/Tests/VsidsTests.antt =====
-- The scaling of service/src/vsids.rs at whole numbers, with a bump factor of 2.
use meritrank_rust.Prelude.{
  ℕ, ◌*◌, zero, suc, ◌≡◌, ◌<◌, subst, Bool, ◌==◌, refl, none, some, true, false, [], ◌∷◌,
  if◌then◌else◌, arith,
}
use meritrank_rust.Prelude.Partial.{some_injective}
use meritrank_rust.Service.Vsids.{
  pos, negsuc, as_i32, subtract, Scaling, VsidsManager, Scaled, current, apply_edge_update,
  finish_edge_update, new, Extent, i32_half,
}
use meritrank_rust.Service.Vsids.Laws.{
  IsScaled, IsUpdated, IsSmall, finish-apply_edge_update, exact_weight,
}
use meritrank_rust.Service.Vsids.Overflow.{apply-finish-apply_edge_update_panics}
use meritrank_rust.Tests.Concrete
use meritrank_rust.Tests.Concrete.{Num}
use meritrank_rust.Deps.{Float}

abbrev times : Num → Num → Num
times (Concrete.pos m) (Concrete.pos n) = Concrete.pos (m * n)
times x y = x

abbrev whole : Float
whole = record Concrete.numbers { mul = times }

power : Num → ℕ → Num
power x zero = Concrete.pos 1
power x (suc n) = times x (power x n)

-- A negative power is taken for 1.
abbrev powers : Scaling whole
powers = record {
  powi = λ x i. elim i [ pos n ↦ power x n | negsuc n ↦ Concrete.pos 1 ];
  min = λ x y. if whole.lt x y then x else y;
  max = λ x y. if whole.lt x y then y else x;
  f64_max = Concrete.pos 1000000;
  default_bump = Concrete.pos 2;
  default_threshold = Concrete.pos 100;
  default_ratio = Concrete.pos 1;
}

-- Magnitude 3 after magnitude 5 is a difference of -2.
wrapped :
    (subtract false 3 5 ≡ some 4294967294)
    × (as_i32 4294967294 ≡ negsuc 1)
    × (subtract true 3 5 ≡ none)
unfolding subtract as_i32
wrapped = (refl, refl, refl)

-- Source 7 has a weight of 12, scaled to magnitude 1.
abbrev started : VsidsManager whole powers
started = record (new whole powers none) {
  min_max_weights =
      (7, record { least = Concrete.pos 12; largest = Concrete.pos 12; mag_scale = 1 }) ∷ [];
}

entry_small :
    (b : Bool) (x e : Extent whole powers)
    → x.mag_scale < i32_half
    → (if b then some x else none) ≡ some e
    → e.mag_scale < i32_half
entry_small true x e small at =
    subst (λ (y : Extent whole powers). y.mag_scale < i32_half) (some_injective at) small
entry_small false x e small at = cc

started-IsSmall : IsSmall whole powers started
started-IsSmall j e at = entry_small (7 == j) _ e (omega arith) at

finish-apply_edge_update_example :
    (r : VsidsManager whole powers × Scaled whole powers) × (apply_edge_update whole powers false
        started 7
        (Concrete.pos 3)
        3
      ≡ some r)
    × IsScaled whole powers started (current whole powers started 7) (Concrete.pos 3) 3 r.1
    × IsUpdated whole powers started 7
        (record (r.1.extent) { least = Concrete.pos 5 })
        (finish_edge_update whole powers r.0 7 (Concrete.pos 5))
    × IsSmall whole powers (finish_edge_update whole powers r.0 7 (Concrete.pos 5))
finish-apply_edge_update_example =
    finish-apply_edge_update whole powers started 7 (Concrete.pos 3) (Concrete.pos 5) 3
      started-IsSmall (omega arith)

above :
    whole.lt started.rescale_threshold (
      whole.abs
        (exact_weight whole powers started (current whole powers started 7) (Concrete.pos 3) 9))
    ≡ true
unfolding new power
above = refl

-- A weight of 3 at magnitude 9 is scaled by 2 ^ 8, above the threshold of 100.
apply-finish-apply_edge_update_panics_example :
    (r : VsidsManager whole powers × Scaled whole powers) × (apply_edge_update whole powers true
        started 7
        (Concrete.pos 3)
        9
      ≡ some r)
    × (apply_edge_update whole powers true
          (finish_edge_update whole powers r.0 7 (Concrete.pos 1))
          7
          (Concrete.pos 2)
          8
        ≡ none)
apply-finish-apply_edge_update_panics_example =
    apply-finish-apply_edge_update_panics whole powers started 7 (Concrete.pos 3) (Concrete.pos 2)
      (Concrete.pos 1) 9 8 (omega arith) (omega arith) (omega arith) above
