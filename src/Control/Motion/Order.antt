-- ===== src/Control/Motion/Order.antt =====
-- Clamping and limited steps over Python's `float`.
use go2_local_navigation.Prelude.{◌≡◌, false, arith}
use go2_local_navigation.Prelude.Float.{Float, fmin, fmax, ◌≼◌, IsFinite, IsOrdered, IsRounded}
use go2_local_navigation.Control.Motion.{move_toward}

-- `x` lies between two bounds that are finite.
pub record Between {F : Type 0} ⦃fl : Float F⦄ (lo hi x : F) : Type 0 where
  pub above : lo ≼ x
  pub below : x ≼ hi

module _ {F : Type 0} ⦃fl : Float F⦄ (o : IsOrdered F) where
  pub le_of_not_lt : (x y : F) → x ≼ x → y ≼ y → fl.lt x y ≡ false → y ≼ x
  le_of_not_lt x y hx hy h = ground (arith, o.lt-eq-not-le x y hx hy)

  pub le-fmax : (x lo : F) → x ≼ x → lo ≼ lo → (lo ≼ fmax x lo) × (x ≼ fmax x lo)
  le-fmax x lo hx hl = ground (arith, le_of_not_lt x lo hx hl, o.le_of_lt x lo)

  pub fmin-le : (x hi : F) → x ≼ x → hi ≼ hi → (fmin x hi ≼ hi) × (fmin x hi ≼ x)
  fmin-le x hi hx hh = ground (arith, le_of_not_lt hi x hh hx, o.le_of_lt hi x)

  pub clamp-Between : (lo hi x : F) → x ≼ x → lo ≼ hi → Between lo hi (fmin (fmax x lo) hi)
  clamp-Between lo hi x hx h = ground (
    arith,
    o.number_of_le lo hi h,
    le-fmax x lo hx,
    o.number_of_le lo (fmax x lo),
    fmin-le (fmax x lo) hi,
  )

  -- the second bound may pass below the first one's result
  fmin-Between : (lo hi m c : F) → lo ≼ m → m ≼ hi → lo ≼ c → Between lo hi (fmin m c)
  fmin-Between lo hi m c h k l = ground (
    arith,
    o.number_of_le lo m h,
    o.number_of_le lo c l,
    o.number_of_le m hi k,
    o.le_of_lt c m,
    o.le_trans c m hi,
  )

  fmax-Between : (lo hi t c : F) → lo ≼ t → t ≼ hi → c ≼ hi → Between lo hi (fmax t c)
  fmax-Between lo hi t c h k l = ground (arith, o.le_of_lt t c, o.le_trans lo t c)

  module _ (r : IsRounded F) where
    pub move_toward-Between :
        (lo hi current target d : F)
        → Between lo hi current
        → Between lo hi target
        → IsFinite current
        → fl.nought ≼ d
        → Between lo hi (move_toward current target d)
    unfolding move_toward
    move_toward-Between lo hi current target d bc bt fc hd =
        let dn = r.sub_le current d fc hd in
        let up = r.le_add current d fc hd in
        let m =
          fmax-Between lo hi target (fl.sub current d) bt.above bt.below
            (o.le_trans (fl.sub current d) current hi dn bc.below) in
        fmin-Between lo hi (fmax target (fl.sub current d)) (fl.add current d) m.above m.below
          (o.le_trans lo current (fl.add current d) bc.above up)

    pub move_toward-within_delta :
        (current target d : F)
        → IsFinite current
        → target ≼ target
        → fl.nought ≼ d
        → Between (fl.sub current d) (fl.add current d) (move_toward current target d)
    unfolding move_toward
    move_toward-within_delta current target d fc ht hd =
        clamp-Between (fl.sub current d) (fl.add current d) target ht (
          o.le_trans (fl.sub current d) current (fl.add current d) (r.sub_le current d fc hd)
            (r.le_add current d fc hd))

    -- a target within reach is reached
    pub move_toward-reaches :
        (current target d : F)
        → fl.sub current d ≼ target
        → target ≼ fl.add current d
        → move_toward current target d ≡ target
    unfolding move_toward
    move_toward-reaches current target d h k = ground (
      arith,
      o.number_of_le (fl.sub current d) target h,
      o.number_of_le target (fl.add current d) k,
      o.lt-eq-not-le target (fl.sub current d),
      o.lt-eq-not-le (fl.add current d) target,
    )
