-- ===== src/Perception/Window/Layout.antt =====
-- The cloud window of src/go2_perception/go2_perception/mapping_cloud_accumulator.py: what it emits
-- passes its own validation, and how many clouds it holds.
use go2_local_navigation.Prelude.{
  ℕ, ◌+◌, ◌-◌, ◌*◌, ◌≤◌, ◌<◌, ◌≡◌, refl, sym, ◌∙◌, ◌⊎◌, inl, inr, String, List, [], ◌∷◌, ◌++◌, map,
  length, length-append, length-drop, last_or, sum, all, All, All-append, All-drop, ok, arith,
}
use go2_local_navigation.Prelude.Text.{str_eq_iff}
use go2_local_navigation.Perception.Message.{PointCloud2}
use go2_local_navigation.Perception.Window.{
  CloudWindow, validate_cloud, validate_matching_layout, matches_last, append_bounded, all_bytes,
  concatenate_clouds,
}

-- A cloud of the target frame with whole points of `step` bytes.
pub record IsLayout (target : String) (step : ℕ) (c : PointCloud2) : Type 0 where
  pub valid : validate_cloud c target ≡ ok tt
  pub step_eq : c.point_step ≡ step

-- The clouds held share a layout, and the window holds at most `frame_limit` clouds.
pub record IsHeld (w : CloudWindow) : Type 0 where
  pub limit_pos : 0 < w.frame_limit
  pub cadence : (w.emit_every ≡ 1) ⊎ (w.emit_every ≡ w.frame_limit)
  pub step : ℕ
  pub layout : All (IsLayout w.target_frame step) w.clouds
  pub bounded : length w.clouds ≤ w.frame_limit

pub length-append_bounded {ℓ} :
    {A : Type ℓ} (n : ℕ) (xs : List A) (x : A)
    → 0 < n
    → length xs ≤ n
    → (length (append_bounded n xs x) ≤ n)
      × (0 < length (append_bounded n xs x))
      × (length xs < n → length (append_bounded n xs x) ≡ length xs + 1)
      × (length xs ≤ length (append_bounded n xs x))
length-append_bounded n xs x h k =
    let d = length-drop (length xs + 1 - n) (xs ++ x ∷ []) in
    let a = length-append xs (x ∷ []) in
    (
      omega (arith, d, a),
      omega (arith, d, a),
      (λ (l : length xs < n). omega (arith, d, a)),
      omega (arith, d, a, h, k),
    )

valid_parts :
    (c : PointCloud2) (t : String)
    → validate_cloud c t ≡ ok tt
    → (0 < c.width) × (0 < c.point_step) × (length c.bytes ≡ c.width * c.point_step)
unfolding validate_cloud
valid_parts c t h = ground arith

length-all_bytes :
    (t : String) (k : ℕ) (cs : List PointCloud2)
    → All (IsLayout t k) cs
    → length (all_bytes cs) ≡ sum (map (λ (c : PointCloud2). c.width) cs) * k
length-all_bytes t k [] h = omega arith
length-all_bytes t k (c ∷ cs) h =
    let p = valid_parts c t h.0.valid in
    let e = h.0.step_eq in
    grind (arith, length-append c.bytes (all_bytes cs), length-all_bytes t k cs h.1)

last_or-IsLayout :
    (t : String) (k : ℕ) (c : PointCloud2) (cs : List PointCloud2)
    → All (IsLayout t k) (c ∷ cs)
    → IsLayout t k (last_or c cs)
last_or-IsLayout t k c [] h = h.0
last_or-IsLayout t k c (d ∷ cs) h = last_or-IsLayout t k d cs h.1

valid_of_parts :
    (c : PointCloud2) (t : String)
    → c.header.frame_id ≡ t
    → c.height ≡ 1
    → 0 < c.width
    → 0 < c.point_step
    → c.row_step ≡ c.width * c.point_step
    → length c.bytes ≡ c.width * c.point_step
    → validate_cloud c t ≡ ok tt
unfolding validate_cloud
valid_of_parts c t f h w p r b =
    let e : length c.bytes ≡ c.height * c.row_step = rw (h, r) (omega arith) in
    ground (arith, str_eq_iff c.header.frame_id t)

abbrev pub widths : List PointCloud2 → ℕ
widths cs = sum (map (λ (d : PointCloud2). d.width) cs)

-- What is concatenated from clouds of one layout has that layout.
pub concatenate_clouds-IsLayout :
    (t : String) (k : ℕ) (c : PointCloud2) (cs : List PointCloud2)
    → All (IsLayout t k) (c ∷ cs)
    → (out : PointCloud2) × (concatenate_clouds (c ∷ cs) t ≡ ok out)
      × IsLayout t k out
      × (out.width ≡ widths (c ∷ cs))
      × (out.header.stamp ≡ (last_or c cs).header.stamp)
unfolding concatenate_clouds
concatenate_clouds-IsLayout t k c cs h =
    let latest = last_or c cs in
    let l = last_or-IsLayout t k c cs h in
    let p = valid_parts c t h.0.valid in
    let q = valid_parts latest t l.valid in
    let b : length (all_bytes (c ∷ cs)) ≡ widths (c ∷ cs) * latest.point_step =
      rw l.step_eq (length-all_bytes t k (c ∷ cs) h) in
    let out : PointCloud2 = record {
      header = record { stamp = latest.header.stamp; frame_id = t };
      height = 1;
      width = widths (c ∷ cs);
      fields = latest.fields;
      is_bigendian = latest.is_bigendian;
      point_step = latest.point_step;
      row_step = widths (c ∷ cs) * latest.point_step;
      bytes = all_bytes (c ∷ cs);
      is_dense = all (λ (d : PointCloud2). d.is_dense) (c ∷ cs);
    } in
    (
      out,
      refl,
      record {
        valid = valid_of_parts out t refl refl (omega arith) q.1 refl b;
        step_eq = l.step_eq;
      },
      refl,
      refl,
    )

matches-step :
    (cs : List PointCloud2) (t : String) (k : ℕ) (c : PointCloud2)
    → All (IsLayout t k) cs
    → matches_last cs c ≡ ok tt
    → (cs ≡ []) ⊎ (c.point_step ≡ k)
unfolding matches_last
matches-step [] t k c h m = inl refl
matches-step (d ∷ cs) t k c h m =
    let l = (last_or-IsLayout t k d cs h).step_eq in
    let e : (last_or d cs).point_step ≡ c.point_step =
      unfold validate_matching_layout in ground arith in
    inr (sym e ∙ l)

-- A cloud that passes both checks joins the layout of those that are held.
pub joined-IsLayout :
    (w : CloudWindow) (c : PointCloud2)
    → IsHeld w
    → validate_cloud c w.target_frame ≡ ok tt
    → matches_last w.clouds c ≡ ok tt
    → (k : ℕ) × All (IsLayout w.target_frame k) (append_bounded w.frame_limit w.clouds c)
joined-IsLayout w c h v m = elim (matches-step w.clouds w.target_frame h.step c h.layout m) [
  | inl e ↦ (
    c.point_step,
    rw e (
        All-drop (IsLayout w.target_frame c.point_step) (0 + 1 - w.frame_limit) (c ∷ [])
          (record { valid = v; step_eq = refl }, tt)),
  )
  | inr e ↦ (
    h.step,
    All-drop (IsLayout w.target_frame h.step) (length w.clouds + 1 - w.frame_limit)
        (w.clouds ++ c ∷ [])
        (All-append (IsLayout w.target_frame h.step) w.clouds (c ∷ []) h.layout
          (record { valid = v; step_eq = e }, tt)),
  )
]
