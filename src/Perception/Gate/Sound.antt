-- ===== src/Perception/Gate/Sound.antt =====
-- What the gate of src/go2_perception/go2_perception/mapping_cloud_gate_node.py lets through.
use go2_local_navigation.Prelude.{
  ℕ, ◌*◌, ◌≤◌, ◌<◌, ◌≡◌, ◌↔◌, ◌⊎◌, inl, inr, refl, Bool, true, false, ◌||◌, Option, none, some,
  List, [], ◌∷◌, map, length, arith, if◌then◌else◌, Bool-cases, Option-cases,
}
use go2_local_navigation.Prelude.Int.{ℤ, pos, ◌*ℤ◌, ◌-ℤ◌, ◌≤ℤ◌, ◌<ℤ◌, ltb_ℤ, leb_ℤ, eqb_ℤ}
use go2_local_navigation.Prelude.Ordered.{NotBefore, Descending, Descending-newest}
use go2_local_navigation.Prelude.Text.{subset_str}
use go2_local_navigation.Perception.Message.{PointField, PointCloud2, stamp_nanoseconds}
use go2_local_navigation.Perception.Gate.{
  assess_mapping_cloud, is_before, is_malformed, Suppression, MappingCloudAssessment, suppress,
  empty_cloud, malformed_layout, nonpositive_timestamp, timestamp_regression, nan_cloud,
  stale_cloud, max_cloud_age_nanoseconds, GateNode, make_gate, sample_of, on_cloud, run_gate,
}

-- A cloud that may go on: not empty, whole, with finite points and the fields x, y and z.
pub record IsWhole (c : PointCloud2) (count : ℕ) : Type 0 where
  pub width : 0 < c.width
  pub height : 0 < c.height
  pub point_step : 0 < c.point_step
  pub rows : c.width * c.point_step ≤ c.row_step
  pub bytes : length c.bytes ≡ c.height * c.row_step
  pub fields : subset_str ("x" ∷ "y" ∷ "z" ∷ []) (map (λ (f : PointField). f.name) c.fields) ≡ true
  pub finite : 0 < count

-- Its stamp is positive, not before the last one and at most a second old.
pub record IsTimely (stamp now : ℤ) (previous : Option ℤ) : Type 0 where
  pub positive : pos 0 <ℤ stamp
  pub ordered : NotBefore previous stamp
  pub fresh : (now -ℤ stamp) ≤ℤ max_cloud_age_nanoseconds

abbrev pub Passes : PointCloud2 → ℕ → ℤ → Option ℤ → Type 0
Passes c count now previous =
    IsWhole c count × IsTimely (stamp_nanoseconds c.header.stamp) now previous

-- A test that does not suppress, and the tests after it.
passed_test :
    (b : Bool) (r : Suppression) (a : MappingCloudAssessment)
    → (if b then suppress r else a).publish ≡ true
    → (b ≡ false) × (a.publish ≡ true)
passed_test true r a h = cc
passed_test false r a h = (refl, h)

malformed-false :
    (c : PointCloud2) (count : ℕ)
    → 0 < c.width
    → 0 < c.height
    → 0 < count
    → is_malformed (sample_of c count) ≡ false
    → IsWhole c count
unfolding ◌*ℤ◌
malformed-false c count w h n m = ground arith

whole-malformed :
    (c : PointCloud2) (count : ℕ) → IsWhole c count → is_malformed (sample_of c count) ≡ false
unfolding ◌*ℤ◌
whole-malformed c count h = ground arith

not_before :
    (stamp : ℤ) (previous : Option ℤ)
    → (is_before stamp previous ≡ false) ↔ NotBefore previous stamp
not_before stamp none = ((λ h. tt), (λ h. refl))
not_before stamp (some t) = ((λ h. ground arith), (λ h. ground arith))

nonempty : (m n : ℕ) → (eqb_ℤ (pos m) (pos 0) || eqb_ℤ (pos n) (pos 0)) ≡ false → (0 < m) × (0 < n)
nonempty m n h = ground arith

counted : (n : ℕ) → eqb_ℤ (pos n) (pos 0) ≡ false → 0 < n
counted n h = ground arith

above : (a b : ℤ) → leb_ℤ a b ≡ false → b <ℤ a
above a b h = ground arith

at_most : (a b : ℤ) → ltb_ℤ a b ≡ false → b ≤ℤ a
at_most a b h = ground arith

publish-Passes :
    (c : PointCloud2) (count : ℕ) (now : ℤ) (previous : Option ℤ)
    → (assess_mapping_cloud (sample_of c count) now previous).publish ≡ true
    → Passes c count now previous
unfolding assess_mapping_cloud
publish-Passes c count now previous h =
    let stamp = stamp_nanoseconds c.header.stamp in
    let (empty, h1) = passed_test _ empty_cloud _ h in
    let (malformed, h2) = passed_test _ malformed_layout _ h1 in
    let (nonpositive, h3) = passed_test _ nonpositive_timestamp _ h2 in
    let (regressed, h4) = passed_test _ timestamp_regression _ h3 in
    let (nan, h5) = passed_test _ nan_cloud _ h4 in
    let (stale, _) = passed_test _ stale_cloud _ h5 in
    let w = nonempty c.width c.height empty in
    (
      malformed-false c count w.0 w.1 (counted count nan) malformed,
      record {
        positive = above stamp (pos 0) nonpositive;
        ordered = (not_before stamp previous).0 regressed;
        fresh = at_most max_cloud_age_nanoseconds (now -ℤ stamp) stale;
      },
    )

Passes-publish :
    (c : PointCloud2) (count : ℕ) (now : ℤ) (previous : Option ℤ)
    → Passes c count now previous
    → (assess_mapping_cloud (sample_of c count) now previous).publish ≡ true
unfolding assess_mapping_cloud
Passes-publish c count now previous (w, t) =
    let stamp = stamp_nanoseconds c.header.stamp in
    let w1 = w.width in
    let w2 = w.height in
    let w3 = w.finite in
    let t1 = t.positive in
    let t2 = t.fresh in
    rw (whole-malformed c count w, (not_before stamp previous).1 t.ordered) (ground arith)

-- The gate looks at the layout before it counts the points, which changes no verdict.
layout-first :
    (c : PointCloud2) (count : ℕ) (now : ℤ) (previous : Option ℤ)
    → Passes c count now previous
    → Passes c 1 now previous
layout-first c count now previous (w, t) = (
  record {
    width = w.width;
    height = w.height;
    point_step = w.point_step;
    rows = w.rows;
    bytes = w.bytes;
    fields = w.fields;
    finite = omega arith;
  },
  t,
)

module _ (read_points : PointCloud2 → Option ℕ) where
  -- a message that the library can read, and that meets all the rules
  abbrev pub Admitted : PointCloud2 → ℤ → GateNode → Type 0
  Admitted message now n =
      (count : ℕ) × (read_points message ≡ some count)
      × Passes message count now n.previous_stamp_nanoseconds

  abbrev pub after : PointCloud2 → GateNode → GateNode
  after message n = record {
    previous_stamp_nanoseconds = some (stamp_nanoseconds message.header.stamp);
    published = message ∷ n.published;
  }

  -- The gate publishes a message unchanged and remembers its stamp exactly when the library reads
  -- its points and it is whole, in order, at most a second old and has a finite point. Any other
  -- message changes nothing.
  pub on_cloud-Outcome :
      (message : PointCloud2) (now : ℤ) (n : GateNode)
      → (Admitted message now n × (on_cloud read_points message now n ≡ after message n))
        ⊎ ((¬ Admitted message now n) × (on_cloud read_points message now n ≡ n))
  unfolding on_cloud
  on_cloud-Outcome message now n =
      let previous = n.previous_stamp_nanoseconds in
      elim (Option-cases (read_points message)) [
        | inl e ↦ inr (
          (λ (count, r, _). cc (e, r)),
          elim (Bool-cases (assess_mapping_cloud (sample_of message 1) now previous).publish) [
            | inl p ↦ rw (p, e)
            | inr p ↦ rw p
          ],
        )
        | inr (count, e) ↦
            elim (Bool-cases
              (assess_mapping_cloud (sample_of message count) now previous).publish) [
                | inl p ↦
                    let h = publish-Passes message count now previous p in
                    let l =
                      Passes-publish message 1 now previous
                        (layout-first message count now previous h) in
                    inl ((count, e, h), rw (l, e, p))
                | inr p ↦ inr (
                  (λ (k, r, h). cc (p, r, e, Passes-publish message k now previous h)),
                  elim (Bool-cases
                      (assess_mapping_cloud (sample_of message 1) now previous).publish) [
                        | inl q ↦ rw (q, e, p)
                        | inr q ↦ rw q
                      ],
                )
              ]
      ]

  abbrev pub cloud_stamp : PointCloud2 → ℤ
  cloud_stamp c = stamp_nanoseconds c.header.stamp

  -- a whole cloud of positive stamp whose points the library could read
  abbrev pub IsForwarded : PointCloud2 → Type 0
  IsForwarded c =
      (count : ℕ) × (read_points c ≡ some count) × IsWhole c count × (pos 0 <ℤ cloud_stamp c)

  on_cloud-Descending :
      (message : PointCloud2) (now : ℤ) (n : GateNode)
      → Descending IsForwarded cloud_stamp n.previous_stamp_nanoseconds n.published
      → Descending IsForwarded cloud_stamp
          (on_cloud read_points message now n).previous_stamp_nanoseconds
          (on_cloud read_points message now n).published
  on_cloud-Descending message now n h = elim (on_cloud-Outcome message now n) [
    | inl ((count, r, (w, t)), e) ↦ rw e (
        Descending-newest IsForwarded cloud_stamp n.previous_stamp_nanoseconds message n.published
          (count, r, w, t.positive) t.ordered h)
    | inr (_, e) ↦ rw e h
  ]

  run_gate-keeps :
      (messages : List (PointCloud2 × ℤ)) (n : GateNode)
      → Descending IsForwarded cloud_stamp n.previous_stamp_nanoseconds n.published
      → Descending IsForwarded cloud_stamp
          (run_gate read_points messages n).previous_stamp_nanoseconds
          (run_gate read_points messages n).published
  unfolding run_gate
  run_gate-keeps [] n h = h
  run_gate-keeps ((message, now) ∷ rest) n h =
      run_gate-keeps rest (on_cloud read_points message now n) (on_cloud-Descending message now n h)

  -- Whatever messages arrive, what the gate has published since start-up is whole, readable and of
  -- positive stamp, and its stamps never go back.
  pub run_gate-Descending :
      (messages : List (PointCloud2 × ℤ))
      → Descending IsForwarded cloud_stamp
          (run_gate read_points messages make_gate).previous_stamp_nanoseconds
          (run_gate read_points messages make_gate).published
  run_gate-Descending messages = run_gate-keeps messages make_gate tt
