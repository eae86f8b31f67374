-- ===== src/Service/Vsids/Overflow.antt =====
-- service/src/vsids.rs: the subtraction of the magnitudes where the build checks for overflow.
use meritrank_rust.Prelude.{
  ℕ, ◌<◌, ◌≤◌, ◌≡◌, sym, ap, ◌∙◌, none, some, true, false, ltb, unwrap_or, arith, lt→ltb, le→ltb,
}
use meritrank_rust.Deps.{Float}
use meritrank_rust.Service.Vsids.{
  i32_half, subtract, Scaling, VsidsManager, Extent, Scaled, current, apply_edge_update,
  finish_edge_update,
}
use meritrank_rust.Service.Vsids.Magnitudes.{subtract-as_i32}
use meritrank_rust.Service.Vsids.Laws.{
  if_true, if_false, exact_weight, IsScaled, is_kept, is_rescaled, scale_by-IsScaled,
  insert-IsUpdated, updated, apply_edge_update-subtract, finish_edge_update_found,
}

true-false : ¬ (true ≡ false)
true-false e = cc

module _ (floats : Float) (scaling : Scaling floats) where
  open floats use {F}

  apply_edge_update_panics :
      (m : VsidsManager floats scaling) (src_id : ℕ) (w : F) (magnitude : ℕ)
      → magnitude < (current floats scaling m src_id).mag_scale
      → apply_edge_update floats scaling true m src_id w magnitude ≡ none
  unfolding subtract
  apply_edge_update_panics m src_id w magnitude h =
      apply_edge_update-subtract floats scaling m src_id w magnitude true none (
        if_true _ _ (ltb magnitude (current floats scaling m src_id).mag_scale)
          (lt→ltb magnitude (current floats scaling m src_id).mag_scale h))

  subtract-checked : (a b : ℕ) → b ≤ a → subtract true a b ≡ subtract false a b
  unfolding subtract
  subtract-checked a b h = if_false _ _ (ltb a b) (le→ltb a b h)

  rescaled_magnitude :
      (m : VsidsManager floats scaling) (e : Extent floats scaling) (w : F) (magnitude : ℕ)
      (s : Scaled floats scaling)
      → floats.lt m.rescale_threshold (floats.abs (exact_weight floats scaling m e w magnitude))
        ≡ true
      → IsScaled floats scaling m e w magnitude s
      → s.extent.mag_scale ≡ magnitude
  rescaled_magnitude m e w magnitude s above (is_kept below same) =
      absurd (true-false (sym above ∙ below))
  rescaled_magnitude m e w magnitude s above (is_rescaled _ same) =
      ap (λ (r : Scaled floats scaling). r.extent.mag_scale) same

  -- In a build with overflow checks, for an update whose magnitude is below 2^31 and not below the
  -- stored one, and whose scaled weight is above the threshold: `apply_edge_update` returns, and
  -- after `finish_edge_update` a further `apply_edge_update` of the same source panics for every
  -- magnitude that is below that of the first.
  pub apply-finish-apply_edge_update_panics :
      (m : VsidsManager floats scaling) (src_id : ℕ) (w v actual_min : F) (magnitude k : ℕ)
      → k < magnitude
      → (current floats scaling m src_id).mag_scale ≤ magnitude
      → magnitude < i32_half
      → floats.lt m.rescale_threshold
          (floats.abs (exact_weight floats scaling m (current floats scaling m src_id) w magnitude))
        ≡ true
      → (r : VsidsManager floats scaling × Scaled floats scaling) × (apply_edge_update floats
            scaling true m src_id w magnitude
          ≡ some r)
        × (apply_edge_update floats scaling true
              (finish_edge_update floats scaling r.0 src_id actual_min)
              src_id
              v
              k
            ≡ none)
  apply-finish-apply_edge_update_panics m src_id w v actual_min magnitude k below order fresh
        above =
      let e = current floats scaling m src_id in
      let (d, at, same) =
        subtract-as_i32 magnitude e.mag_scale (omega arith) (omega arith) (omega arith)
          (omega arith) in
      let r = updated floats scaling m src_id w magnitude d in
      let scaled = scale_by-IsScaled floats scaling m e w magnitude d same (omega arith) in
      let found =
        finish_edge_update_found floats scaling r.0 src_id actual_min r.1.extent
          (insert-IsUpdated floats scaling m src_id r.1.extent).stored in
      let stored =
        ap
          (λ o.
            (unwrap_or {A = Extent floats scaling} o
              (record { least = scaling.f64_max; largest = floats.zero; mag_scale = 0 })).mag_scale)
          found.stored
        ∙ rescaled_magnitude m e w magnitude r.1 above scaled in
      (
        r,
        apply_edge_update-subtract floats scaling m src_id w magnitude true (some d)
            (subtract-checked magnitude e.mag_scale order ∙ at),
        apply_edge_update_panics (finish_edge_update floats scaling r.0 src_id actual_min) src_id v
            k (omega arith),
      )
