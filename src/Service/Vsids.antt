-- ===== src/Service/Vsids.antt =====
-- service/src/vsids.rs: `VSIDSManager`, which scales the weight of a new edge by its magnitude and
-- keeps the least and the largest weight of each source. A magnitude is a u32; `checked` says whether
-- the build panics where its subtraction overflows, or wraps. A panic is none.
pub mod Magnitudes
pub mod Laws
pub mod Overflow
use meritrank_rust.Prelude.{
  ℕ, ◌+◌, ◌-◌, ◌%◌, ◌<◌, ◌≡◌, [], Option, none, some, Bool, true, false, if◌then◌else◌, ltb, leb,
  ◌&&◌, unwrap_or,
}
use meritrank_rust.Prelude.IntMap
use meritrank_rust.Prelude.IntMap.{IntMap}
use meritrank_rust.Prelude.Partial.{◌>>=◌}
use meritrank_rust.Deps.{Float}

-- `negsuc n` is -(n + 1).
pub data ℤ : Type 0 where
  pos : ℕ → ℤ
  negsuc : ℕ → ℤ

-- 2 ^ 32, and 2 ^ 31
abbrev pub u32_values : ℕ
u32_values = 4294967296

abbrev pub i32_half : ℕ
i32_half = 2147483648

-- `n as i32`, for a u32
unfoldable pub as_i32 : ℕ → ℤ
as_i32 n = if ltb n i32_half then pos n else negsuc (u32_values - n - 1)

-- `a - b` on u32
unfoldable pub subtract : Bool → ℕ → ℕ → Option ℕ
subtract checked a b =
    if checked && ltb a b then none else some ((a + (u32_values - b)) % u32_values)

-- More of f64, and the constants of the source.
pub record Scaling (floats : Float) : Type 0 where
  pub powi : floats.F → ℤ → floats.F
  pub min : floats.F → floats.F → floats.F
  pub max : floats.F → floats.F → floats.F
  pub f64_max : floats.F
  pub default_bump : floats.F
  pub default_threshold : floats.F
  pub default_ratio : floats.F

module _ (floats : Float) (scaling : Scaling floats) where
  open floats use {F}

  -- The least and the largest weight of a source, and the magnitude that they are scaled to.
  pub record Extent : Type 0 where
    pub least : F
    pub largest : F
    pub mag_scale : ℕ

  pub record VsidsManager : Type 0 where
    pub min_max_weights : IntMap Extent
    pub bump_factor : F
    pub rescale_threshold : F
    pub deletion_ratio : F

  -- `VSIDS_BUMP` of the environment, where it is a number.
  unfoldable pub new : Option F → VsidsManager
  new bump = record {
    min_max_weights = [];
    bump_factor = unwrap_or bump scaling.default_bump;
    rescale_threshold = scaling.default_threshold;
    deletion_ratio = scaling.default_ratio;
  }

  pub record Scaled : Type 0 where
    pub scaled_weight : F
    pub extent : Extent
    pub rescale_factor : F

  abbrev pub current : VsidsManager → ℕ → Extent
  current m src_id =
      unwrap_or (IntMap.get src_id m.min_max_weights)
        (record { least = scaling.f64_max; largest = floats.zero; mag_scale = 0 })

  -- The new weight is not scaled, since it would be too large.
  abbrev pub rescaled : Extent → F → ℕ → F → Scaled
  rescaled extent new_weight new_magnitude current_scale_factor = record {
    scaled_weight = new_weight;
    extent = record {
      least = floats.div extent.least current_scale_factor;
      largest = new_weight;
      mag_scale = new_magnitude;
    };
    rescale_factor = current_scale_factor;
  }

  abbrev pub kept : Extent → F → Scaled
  kept extent scaled_weight = record {
    scaled_weight = scaled_weight;
    extent = record {
      least = scaling.min extent.least (floats.abs scaled_weight);
      largest = scaling.max extent.largest (floats.abs scaled_weight);
      mag_scale = extent.mag_scale;
    };
    rescale_factor = floats.of_nat 1;
  }

  -- `compute_scale`, once both factors are computed.
  unfoldable pub scale_with : VsidsManager → Extent → F → ℕ → F → F → Scaled
  scale_with m extent new_weight new_magnitude new_scale_factor current_scale_factor =
      if floats.lt m.rescale_threshold (floats.abs (floats.mul new_weight new_scale_factor))
      then rescaled extent new_weight new_magnitude current_scale_factor
      else kept extent (floats.mul new_weight new_scale_factor)

  abbrev pub scale_by : VsidsManager → Extent → F → ℕ → ℕ → Scaled
  scale_by m extent new_weight new_magnitude difference =
      scale_with m extent new_weight new_magnitude (scaling.powi m.bump_factor (as_i32 difference))
        (scaling.powi m.bump_factor (as_i32 extent.mag_scale))

  unfoldable pub compute_scale : Bool → VsidsManager → ℕ → F → ℕ → Option Scaled
  compute_scale checked m src_id new_weight new_magnitude =
      subtract checked new_magnitude (current m src_id).mag_scale >>= λ difference.
      some (scale_by m (current m src_id) new_weight new_magnitude difference)

  -- The source returns the fields of the second component but the magnitude.
  unfoldable pub apply_edge_update :
      Bool → VsidsManager → ℕ → F → ℕ → Option (VsidsManager × Scaled)
  apply_edge_update checked m src_id new_weight new_magnitude =
      compute_scale checked m src_id new_weight new_magnitude >>= λ s.
      some (record m { min_max_weights = IntMap.insert src_id s.extent m.min_max_weights }, s)

  unfoldable pub finish : VsidsManager → ℕ → F → Option Extent → VsidsManager
  finish m src_id actual_min none = m
  finish m src_id actual_min (some extent) = record m {
    min_max_weights = IntMap.insert src_id (record extent { least = actual_min }) m.min_max_weights;
  }

  unfoldable pub finish_edge_update : VsidsManager → ℕ → F → VsidsManager
  unfolding finish
  finish_edge_update m src_id actual_min =
      finish m src_id actual_min (IntMap.get src_id m.min_max_weights)
