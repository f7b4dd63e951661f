-- ===== src/Perception/Window/Cadence.antt =====
-- When the cloud window of src/go2_perception/go2_perception/mapping_cloud_accumulator.py emits.
use mathlib.Core.Path.{subst}
use go2_local_navigation.Prelude.{
  ℕ, zero, suc, ◌+◌, ◌-◌, ◌≤◌, ◌<◌, ◌≡◌, refl, sym, ◌∙◌, ◌⊎◌, inl, inr, String, Bool, false, Option,
  none, some, List, [], ◌∷◌, ◌++◌, length, drop, last_or, All, Result, ok, err, ◌>>◌, arith, ltb,
  ◌&&◌, Bool-cases, ap,
}
use go2_local_navigation.Prelude.Int.{ℤ, pos, negsuc}
use go2_local_navigation.Perception.Message.{PointCloud2, WindowError, assertion_error}
use go2_local_navigation.Perception.Window.{
  concatenate_clouds, CloudWindow, empty_window, make_window, validate_cloud, matches_last,
  append_bounded, emit, checked, add,
}
use go2_local_navigation.Perception.Window.Layout.{
  IsLayout, IsHeld, length-append_bounded, joined-IsLayout, concatenate_clouds-IsLayout,
}

-- The configuration is kept.
pub record SameWindow (w w' : CloudWindow) : Type 0 where
  pub frame_limit : w'.frame_limit ≡ w.frame_limit
  pub target_frame : w'.target_frame ≡ w.target_frame
  pub emit_every : w'.emit_every ≡ w.emit_every

-- The cloud that is added is the last of a batch; or the batch was full, since the message class had
-- refused its output, and its oldest cloud goes.
abbrev pub Completes : CloudWindow → Type 0
Completes w = (length w.clouds + 1 ≡ w.emit_every) ⊎ (length w.clouds ≡ w.emit_every)

-- The clouds of the window with one more.
abbrev pub Joined : PointCloud2 → CloudWindow → CloudWindow → Type 0
Joined cloud w w' = w'.clouds ≡ append_bounded w.frame_limit w.clouds cloud

-- The cloud is held for a batch that is not complete.
pub record Held (w w' : CloudWindow) (cloud : PointCloud2) : Type 0 where
  pub batch : 1 < w.emit_every
  pub joined : Joined cloud w w'
  pub grown : length w'.clouds ≡ length w.clouds + 1
  pub incomplete : length w'.clouds < w.emit_every

-- The cloud joins the window, and the message class refuses the output, so nothing is emitted. In
-- batch mode the batch is complete.
pub record Refused (fits : PointCloud2 → Bool) (w w' : CloudWindow) (cloud : PointCloud2)
    : Type 0 where
  pub out : PointCloud2
  pub output : concatenate_clouds w'.clouds w'.target_frame ≡ ok out
  pub refused : fits out ≡ false
  pub stamp : out.header.stamp ≡ cloud.header.stamp
  pub joined : Joined cloud w w'
  pub complete : 1 < w.emit_every → Completes w
  pub full : 1 < w.emit_every → length w'.clouds ≡ w.emit_every

-- The clouds are emitted as one: of the target frame and well formed, with the stamp of the newest input.
-- In batch mode it ends a batch of `emit_every` clouds, and otherwise the window slides.
pub record Emitted (w w' : CloudWindow) (cloud out : PointCloud2) : Type 0 where
  pub output :
      concatenate_clouds (append_bounded w.frame_limit w.clouds cloud) w.target_frame ≡ ok out
  pub valid : validate_cloud out w.target_frame ≡ ok tt
  pub stamp : out.header.stamp ≡ cloud.header.stamp
  pub complete : 1 < w.emit_every → Completes w
  pub cleared : 1 < w.emit_every → w'.clouds ≡ []
  pub slid : w.emit_every ≤ 1 → Joined cloud w w'

last-drop {ℓ} :
    {A : Type ℓ} (k : ℕ) (xs : List A) (x : A)
    → k ≤ length xs
    → (y : A) × (ys : List A) × (drop k (xs ++ x ∷ []) ≡ y ∷ ys) × (last_or y ys ≡ x)
last-drop zero [] x h = (x, [], refl, refl)
last-drop {A = A} zero (z ∷ xs) x h = (z, xs ++ x ∷ [], refl, go z xs)
  where
    go : (d : A) (xs : List A) → last_or d (xs ++ x ∷ []) ≡ x
    go d [] = refl
    go d (z ∷ xs) = go z xs
last-drop (suc k) [] x h = absurd (omega arith)
last-drop (suc k) (z ∷ xs) x h = last-drop k xs x (omega arith)

-- What a call of `add` can do.
abbrev pub Outcome :
    (PointCloud2 → Bool)
    → PointCloud2
    → CloudWindow
    → CloudWindow × Result WindowError (Option PointCloud2)
    → Type 0
Outcome fits cloud w r =
    ((e : WindowError) × (r ≡ (w, err e))
      × ((validate_cloud cloud w.target_frame >> matches_last w.clouds cloud) ≡ err e))
    ⊎ ((w' : CloudWindow) × (r ≡ (w', ok none)) × IsHeld w' × SameWindow w w' × Held w w' cloud)
    ⊎ ((w' : CloudWindow) × (r ≡ (w', err assertion_error))
        × IsHeld w'
        × SameWindow w w'
        × Refused fits w w' cloud)
    ⊎ ((w' : CloudWindow) × (out : PointCloud2) × (r ≡ (w', ok (some out)))
        × IsHeld w'
        × SameWindow w w'
        × Emitted w w' cloud out)

both_ok : (m n : Result WindowError (Unit {0})) → (m >> n) ≡ ok tt → (m ≡ ok tt) × (n ≡ ok tt)
both_ok (ok _) n h = (refl, h)
both_ok (err e) n h = cc

module _ (fits : PointCloud2 → Bool) where
  -- The window once the cloud `cloud` has joined as the last of `y ∷ ys`.
  module _ (cloud : PointCloud2) (w : CloudWindow) (h : IsHeld w) (k : ℕ) (y : PointCloud2)
      (ys : List PointCloud2) (layout : All (IsLayout w.target_frame k) (y ∷ ys))
      (newest : last_or y ys ≡ cloud)
      (joined : y ∷ ys ≡ append_bounded w.frame_limit w.clouds cloud)
      (bounded : length (y ∷ ys) ≤ w.frame_limit)
      (grown : length w.clouds < w.frame_limit → length (y ∷ ys) ≡ length w.clouds + 1)
      (no_less : length w.clouds ≤ length (y ∷ ys)) where
    grown-IsHeld : IsHeld (record w { clouds = y ∷ ys })
    grown-IsHeld = record {
      limit_pos = h.limit_pos;
      cadence = h.cadence;
      step = k;
      layout = layout;
      bounded = bounded;
    }

    cleared-IsHeld : IsHeld (record w { clouds = [] })
    cleared-IsHeld = record {
      limit_pos = h.limit_pos;
      cadence = h.cadence;
      step = k;
      layout = tt;
      bounded = omega arith;
    }

    abbrev Ends : Type 0
    Ends = ltb 1 w.emit_every && ltb (length (y ∷ ys)) w.emit_every ≡ false

    completes : Ends → 1 < w.emit_every → Completes w
    completes now b = elim (Bool-cases (ltb (length w.clouds) w.frame_limit)) [
      | inl room ↦ inl (ground (arith, now, b, h.cadence, bounded, grown (ground (arith, room))))
      | inr full ↦ inr (ground (arith, full, b, h.cadence, h.bounded))
    ]

    full_batch : Ends → 1 < w.emit_every → length (y ∷ ys) ≡ w.emit_every
    full_batch now b = ground (arith, now, b, h.cadence, bounded)

    same : (cs : List PointCloud2) → SameWindow w (record w { clouds = cs })
    same cs = record { frame_limit = refl; target_frame = refl; emit_every = refl }

    emit_joined : Outcome fits cloud w (emit fits (record w { clouds = y ∷ ys }))
    unfolding emit
    emit_joined =
        let (out, o, valid, _, out_stamp) =
          concatenate_clouds-IsLayout w.target_frame k y ys layout in
        let stamp = out_stamp ∙ ap (λ (c : PointCloud2). c.header.stamp) newest in
        elim (Bool-cases (ltb 1 w.emit_every && ltb (length (y ∷ ys)) w.emit_every)) [
          | inl wait ↦ inr (
              inl (
                record w { clouds = y ∷ ys },
                rw wait,
                grown-IsHeld,
                same (y ∷ ys),
                record {
                  batch = ground (arith, wait);
                  joined = joined;
                  grown = ground (arith, wait, h.cadence, h.bounded, grown, no_less);
                  incomplete = ground (arith, wait);
                },
              ))
          | inr now ↦ elim (Bool-cases (fits out)) [
            | inr refused ↦ inr (
                inr (
                  inl (
                    record w { clouds = y ∷ ys },
                    rw (now, o, refused),
                    grown-IsHeld,
                    same (y ∷ ys),
                    record {
                      out = out;
                      output = o;
                      refused = refused;
                      stamp = stamp;
                      joined = joined;
                      complete = completes now;
                      full = full_batch now;
                    },
                  )))
            | inl fit ↦ elim (Bool-cases (ltb 1 w.emit_every)) [
              | inl batch ↦ inr (
                  inr (
                    inr (
                      record w { clouds = [] },
                      out,
                      rw (now, o, fit, batch),
                      cleared-IsHeld,
                      same [],
                      record {
                        output =
                            subst
                              (λ (cs : List PointCloud2).
                                concatenate_clouds cs w.target_frame ≡ ok out)
                              joined o;
                        valid = valid.valid;
                        stamp = stamp;
                        complete = completes now;
                        cleared = λ b. refl;
                        slid = λ b. absurd (ground (arith, batch, b));
                      },
                    )))
              | inr sliding ↦ inr (
                  inr (
                    inr (
                      record w { clouds = y ∷ ys },
                      out,
                      rw (now, o, fit, sliding),
                      grown-IsHeld,
                      same (y ∷ ys),
                      record {
                        output =
                            subst
                              (λ (cs : List PointCloud2).
                                concatenate_clouds cs w.target_frame ≡ ok out)
                              joined o;
                        valid = valid.valid;
                        stamp = stamp;
                        complete = completes now;
                        cleared = λ (b : 1 < w.emit_every). absurd (ground (arith, sliding, b));
                        slid = λ b. joined;
                      },
                    )))
            ]
          ]
        ]

  checked-Outcome :
      (cloud : PointCloud2) (w : CloudWindow)
      → IsHeld w
      → (r : Result WindowError (Unit {0}))
      → (validate_cloud cloud w.target_frame >> matches_last w.clouds cloud) ≡ r
      → Outcome fits cloud w (checked fits r cloud w)
  unfolding checked
  checked-Outcome cloud w h (err e) q = inl (e, refl, q)
  checked-Outcome cloud w h (ok _) q =
      let (v, m) = both_ok (validate_cloud cloud w.target_frame) (matches_last w.clouds cloud) q in
      let (k, layout) = joined-IsLayout w cloud h v m in
      let n = length-append_bounded w.frame_limit w.clouds cloud h.limit_pos h.bounded in
      let (y, ys, e, l) =
        last-drop (length w.clouds + 1 - w.frame_limit) w.clouds cloud
          (omega (arith, h.limit_pos)) in
      let joined =
        emit_joined cloud w h k y ys (subst (All (IsLayout w.target_frame k)) e layout) l (sym e)
          (subst (λ (cs : List PointCloud2). length cs ≤ w.frame_limit) e n.0)
          (subst
            (λ (cs : List PointCloud2).
              length w.clouds < w.frame_limit → length cs ≡ length w.clouds + 1)
            e n.2)
          (subst (λ (cs : List PointCloud2). length w.clouds ≤ length cs) e n.3) in
      subst (λ (cs : List PointCloud2). Outcome fits cloud w (emit fits (record w { clouds = cs })))
        (sym e) joined

  -- For a window that holds its invariant, a call of `add` does one of four things. It rejects a
  -- cloud that fails its checks and changes nothing; it holds the cloud for a batch that is not
  -- complete; the message class refuses the output, so that the cloud stays in the window and
  -- nothing is emitted; or it emits the window, with the cloud added, as one valid cloud of the
  -- target frame with the stamp of the cloud added. In batch mode an output is built only of a
  -- complete batch, and the window is empty once it is emitted. The invariant holds after each.
  pub add-Outcome :
      (cloud : PointCloud2) (w : CloudWindow) → IsHeld w → Outcome fits cloud w (add fits cloud w)
  unfolding add
  add-Outcome cloud w h =
      checked-Outcome cloud w h (validate_cloud cloud w.target_frame >> matches_last w.clouds cloud)
        refl

-- A window that the constructor accepts holds the invariant.
pub make_window-IsHeld :
    (frame_limit emit_every : ℤ) (target_frame : String) (w : CloudWindow)
    → make_window frame_limit target_frame emit_every ≡ ok w
    → IsHeld w × (w.clouds ≡ []) × (0 < w.emit_every)
unfolding make_window
make_window-IsHeld (pos (suc n)) (pos m) t w h =
    let e : empty_window (suc n) t m ≡ w = ground arith in
    let c : (m ≡ 1) ⊎ (m ≡ suc n) = ground arith in
    subst (λ (w : CloudWindow). IsHeld w × (w.clouds ≡ []) × (0 < w.emit_every)) e
      (
        record {
          limit_pos = omega arith;
          cadence = c;
          step = 0;
          layout = tt;
          bounded = omega arith;
        },
        refl,
        omega arith,
      )
make_window-IsHeld (pos (suc n)) (negsuc m) t w h = absurd (ground arith)
make_window-IsHeld (pos zero) m t w h = cc
make_window-IsHeld (negsuc n) m t w h = cc
