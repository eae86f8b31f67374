-- ===== src/Service/Vsids/Laws.antt =====
-- service/src/vsids.rs: what an update computes and stores.
use meritrank_rust.Prelude.{
  ℕ, ◌<◌, ◌≡◌, refl, sym, ap, ◌∙◌, subst, inl, inr, Option, none, some, Bool, true, false,
  if◌then◌else◌, ◌==◌, unwrap_or, arith, Bool-cases, ==_refl, ==_iff,
}
use meritrank_rust.Prelude.IntMap
use meritrank_rust.Prelude.Partial.{◌>>=◌, some_injective}
use meritrank_rust.Deps.{Float}
use meritrank_rust.Service.Vsids.{
  pos, i32_half, as_i32, subtract, Scaling, VsidsManager, Extent, Scaled, current, kept, rescaled,
  scale_with, scale_by, compute_scale, apply_edge_update, finish_edge_update, finish,
}
use meritrank_rust.Service.Vsids.Magnitudes.{difference, small_as_i32, subtract-as_i32}

pub if_true {ℓ} : {A : Type ℓ} (x y : A) (b : Bool) → b ≡ true → (if b then x else y) ≡ x
if_true x y b e = ap (λ c. if c then x else y) e

pub if_false {ℓ} : {A : Type ℓ} (x y : A) (b : Bool) → b ≡ false → (if b then x else y) ≡ y
if_false x y b e = ap (λ c. if c then x else y) e

module _ (floats : Float) (scaling : Scaling floats) where
  open floats use {F}

  -- A source's entry after an update is the one computed; every other source keeps its own.
  pub record IsUpdated (m : VsidsManager floats scaling) (src_id : ℕ) (e : Extent floats scaling)
      (n : VsidsManager floats scaling) : Type 0 where
    pub stored : IntMap.get src_id n.min_max_weights ≡ some e
    pub others :
        (j : ℕ)
        → (src_id == j) ≡ false
        → IntMap.get j n.min_max_weights ≡ IntMap.get j m.min_max_weights
    pub same_bump : n.bump_factor ≡ m.bump_factor
    pub same_threshold : n.rescale_threshold ≡ m.rescale_threshold

  -- The weight scaled by the difference of the magnitudes.
  abbrev pub exact_weight : VsidsManager floats scaling → Extent floats scaling → F → ℕ → F
  exact_weight m e w magnitude =
      floats.mul w (scaling.powi m.bump_factor (difference magnitude e.mag_scale))

  -- What an update computes: a weight scaled by the difference of the magnitudes, or, where that is
  -- above the threshold, the weight itself and a factor to scale the others down by.
  pub data IsScaled (m : VsidsManager floats scaling) (e : Extent floats scaling) (w : F)
      (magnitude : ℕ) (s : Scaled floats scaling) : Type 0 where
    is_kept :
        floats.lt m.rescale_threshold (floats.abs (exact_weight m e w magnitude)) ≡ false
        → s ≡ kept floats scaling e (exact_weight m e w magnitude)
        → IsScaled m e w magnitude s
    is_rescaled :
        floats.lt m.rescale_threshold (floats.abs (exact_weight m e w magnitude)) ≡ true
        → s ≡ rescaled floats scaling e w magnitude (scaling.powi m.bump_factor (pos e.mag_scale))
        → IsScaled m e w magnitude s

  -- Every stored magnitude fits an i32.
  abbrev pub IsSmall : VsidsManager floats scaling → Type 0
  IsSmall m =
      (j : ℕ) (e : Extent floats scaling)
      → IntMap.get j m.min_max_weights ≡ some e
      → e.mag_scale < i32_half

  pub scale_by-IsScaled :
      (m : VsidsManager floats scaling) (e : Extent floats scaling) (w : F) (magnitude d : ℕ)
      → as_i32 d ≡ difference magnitude e.mag_scale
      → e.mag_scale < i32_half
      → IsScaled m e w magnitude (scale_by floats scaling m e w magnitude d)
  unfolding scale_with
  scale_by-IsScaled m e w magnitude d same small =
      let new_factor = scaling.powi m.bump_factor (difference magnitude e.mag_scale) in
      let old_factor = scaling.powi m.bump_factor (pos e.mag_scale) in
      let exact : scale_by floats scaling m e w magnitude d
          ≡ scale_with floats scaling m e w magnitude new_factor old_factor =
        ap
          (λ i.
            scale_with floats scaling m e w magnitude (scaling.powi m.bump_factor i)
              (scaling.powi m.bump_factor (as_i32 e.mag_scale)))
          same
        ∙ ap
            (λ i.
              scale_with floats scaling m e w magnitude new_factor (scaling.powi m.bump_factor i))
            (small_as_i32 e.mag_scale small) in
      elim (Bool-cases (floats.lt m.rescale_threshold (floats.abs (floats.mul w new_factor)))) [
        | inl above ↦ is_rescaled above (
            exact
            ∙ if_true _ _ (floats.lt m.rescale_threshold (floats.abs (floats.mul w new_factor)))
                above)
        | inr below ↦ is_kept below (
            exact
            ∙ if_false _ _ (floats.lt m.rescale_threshold (floats.abs (floats.mul w new_factor)))
                below)
      ]

  small_or :
      (o : Option (Extent floats scaling)) (e : Extent floats scaling)
      → e.mag_scale < i32_half
      → ((x : Extent floats scaling) → o ≡ some x → x.mag_scale < i32_half)
      → (unwrap_or o e).mag_scale < i32_half
  small_or none e small h = small
  small_or (some x) e small h = h x refl

  current-small :
      (m : VsidsManager floats scaling) (src_id : ℕ)
      → IsSmall m
      → (current floats scaling m src_id).mag_scale < i32_half
  current-small m src_id h =
      small_or (IntMap.get src_id m.min_max_weights) _ (omega arith) (h src_id)

  IsScaled-small :
      (m : VsidsManager floats scaling) (e : Extent floats scaling) (w : F) (magnitude : ℕ)
      (s : Scaled floats scaling)
      → IsScaled m e w magnitude s
      → e.mag_scale < i32_half
      → magnitude < i32_half
      → s.extent.mag_scale < i32_half
  IsScaled-small m e w magnitude s (is_kept _ same) old fresh =
      subst (λ (r : Scaled floats scaling). r.extent.mag_scale < i32_half) (sym same) old
  IsScaled-small m e w magnitude s (is_rescaled _ same) old fresh =
      subst (λ (r : Scaled floats scaling). r.extent.mag_scale < i32_half) (sym same) fresh

  pub insert-IsUpdated :
      (m : VsidsManager floats scaling) (src_id : ℕ) (e : Extent floats scaling)
      → IsUpdated m src_id e
          (record m { min_max_weights = IntMap.insert src_id e m.min_max_weights })
  insert-IsUpdated m src_id e = record {
    stored =
        IntMap.get-insert src_id src_id e m.min_max_weights
        ∙ if_true _ _ (src_id == src_id) (==_refl src_id);
    others = λ j ne. IntMap.get-insert j src_id e m.min_max_weights ∙ if_false _ _ (src_id == j) ne;
    same_bump = refl;
    same_threshold = refl;
  }

  IsUpdated-trans :
      (m n o : VsidsManager floats scaling) (src_id : ℕ) (e f : Extent floats scaling)
      → IsUpdated m src_id e n
      → IsUpdated n src_id f o
      → IsUpdated m src_id f o
  IsUpdated-trans m n o src_id e f u v = record {
    stored = v.stored;
    others = λ j ne. v.others j ne ∙ u.others j ne;
    same_bump = v.same_bump ∙ u.same_bump;
    same_threshold = v.same_threshold ∙ u.same_threshold;
  }

  IsUpdated-IsSmall :
      (m n : VsidsManager floats scaling) (src_id : ℕ) (e : Extent floats scaling)
      → IsUpdated m src_id e n
      → IsSmall m
      → e.mag_scale < i32_half
      → IsSmall n
  IsUpdated-IsSmall m n src_id e u h small j x at = elim (Bool-cases (src_id == j)) [
    | inl same ↦
        subst (λ (y : Extent floats scaling). y.mag_scale < i32_half)
          (some_injective (
            sym u.stored
            ∙ ap (λ k. IntMap.get k n.min_max_weights) ((==_iff src_id j).0 same)
            ∙ at))
          small
    | inr ne ↦ h j x (sym (u.others j ne) ∙ at)
  ]

  -- What the update returns, once the magnitudes are subtracted.
  abbrev pub updated :
      VsidsManager floats scaling
      → ℕ
      → F
      → ℕ
      → ℕ
      → VsidsManager floats scaling × Scaled floats scaling
  updated m src_id w magnitude d =
      let s = scale_by floats scaling m (current floats scaling m src_id) w magnitude d in
      (record m { min_max_weights = IntMap.insert src_id s.extent m.min_max_weights }, s)

  abbrev pub update_from :
      VsidsManager floats scaling
      → ℕ
      → F
      → ℕ
      → Option ℕ
      → Option (VsidsManager floats scaling × Scaled floats scaling)
  update_from m src_id w magnitude none = none
  update_from m src_id w magnitude (some d) = some (updated m src_id w magnitude d)

  pub apply_edge_update-subtract :
      (m : VsidsManager floats scaling) (src_id : ℕ) (w : F) (magnitude : ℕ) (checked : Bool)
      (o : Option ℕ)
      → subtract checked magnitude (current floats scaling m src_id).mag_scale ≡ o
      → apply_edge_update floats scaling checked m src_id w magnitude
        ≡ update_from m src_id w magnitude o
  unfolding apply_edge_update compute_scale
  apply_edge_update-subtract m src_id w magnitude checked none e =
      ap
        (λ o.
          (o >>= λ d.
          some (scale_by floats scaling m (current floats scaling m src_id) w magnitude d))
          >>= λ s.
              some
                (record m { min_max_weights = IntMap.insert src_id s.extent m.min_max_weights }, s))
        e
  apply_edge_update-subtract m src_id w magnitude checked (some d) e =
      ap
        (λ o.
          (o >>= λ d.
          some (scale_by floats scaling m (current floats scaling m src_id) w magnitude d))
          >>= λ s.
              some
                (record m { min_max_weights = IntMap.insert src_id s.extent m.min_max_weights }, s))
        e

  apply_edge_update_lem :
      (m : VsidsManager floats scaling) (src_id : ℕ) (w : F) (magnitude : ℕ)
      → IsSmall m
      → magnitude < i32_half
      → (r : VsidsManager floats scaling × Scaled floats scaling) × (apply_edge_update floats
            scaling false m src_id w magnitude
          ≡ some r)
        × IsScaled m (current floats scaling m src_id) w magnitude r.1
        × IsUpdated m src_id r.1.extent r.0
        × IsSmall r.0
  apply_edge_update_lem m src_id w magnitude h fresh =
      let old = current-small m src_id h in
      let (d, at, same) =
        subtract-as_i32 magnitude (current floats scaling m src_id).mag_scale (omega arith)
          (omega arith) (omega arith) (omega arith) in
      let scaled = scale_by-IsScaled m (current floats scaling m src_id) w magnitude d same old in
      let u = insert-IsUpdated m src_id (updated m src_id w magnitude d).1.extent in
      (
        updated m src_id w magnitude d,
        apply_edge_update-subtract m src_id w magnitude false (some d) at,
        scaled,
        u,
        IsUpdated-IsSmall m _ src_id _ u h
            (IsScaled-small m (current floats scaling m src_id) w magnitude _ scaled old fresh),
      )

  pub finish_edge_update_found :
      (m : VsidsManager floats scaling) (src_id : ℕ) (actual_min : F) (e : Extent floats scaling)
      → IntMap.get src_id m.min_max_weights ≡ some e
      → IsUpdated m src_id
          (record e { least = actual_min })
          (finish_edge_update floats scaling m src_id actual_min)
  unfolding finish_edge_update
  finish_edge_update_found m src_id actual_min e at =
      subst
        (λ o.
          IsUpdated m src_id (record e { least = actual_min })
            (finish floats scaling m src_id actual_min o))
        (sym at) (insert-IsUpdated m src_id (record e { least = actual_min }))

  -- If every stored magnitude and the new one are below 2^31, then in a build that wraps,
  -- `apply_edge_update` returns; it scales by the true difference of the magnitudes, also where
  -- that is negative and the u32 subtraction wraps, and gives the weight unscaled and a factor for
  -- the others where the scaled one is above the threshold. After `finish_edge_update` the source
  -- has the given least weight and the computed largest weight and magnitude, every other source
  -- has what it had, and every stored magnitude is below 2^31.
  pub finish-apply_edge_update :
      (m : VsidsManager floats scaling) (src_id : ℕ) (w actual_min : F) (magnitude : ℕ)
      → IsSmall m
      → magnitude < i32_half
      → (r : VsidsManager floats scaling × Scaled floats scaling) × (apply_edge_update floats
            scaling false m src_id w magnitude
          ≡ some r)
        × IsScaled m (current floats scaling m src_id) w magnitude r.1
        × IsUpdated m src_id
            (record (r.1.extent) { least = actual_min })
            (finish_edge_update floats scaling r.0 src_id actual_min)
        × IsSmall (finish_edge_update floats scaling r.0 src_id actual_min)
  finish-apply_edge_update m src_id w actual_min magnitude h fresh =
      let (r, at, scaled, u, small) = apply_edge_update_lem m src_id w magnitude h fresh in
      let v = finish_edge_update_found r.0 src_id actual_min r.1.extent u.stored in
      (
        r,
        at,
        scaled,
        IsUpdated-trans m r.0 _ src_id r.1.extent _ u v,
        IsUpdated-IsSmall r.0 _ src_id _ v small (small src_id r.1.extent u.stored),
      )
