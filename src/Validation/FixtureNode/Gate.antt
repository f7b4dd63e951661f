-- ===== src/Validation/FixtureNode/Gate.antt =====
-- What the mapping cloud gate of src/go2_perception does with the clouds that the fixture publishes
-- as faults.
use go2_local_navigation.Prelude.{ℕ, ◌≡◌, refl, Option, some, inl, inr, Bool-cases}
use go2_local_navigation.Prelude.Int.{ℤ, ◌*ℤ◌, ◌+ℤ◌, ◌-ℤ◌, ltb_ℤ}
use go2_local_navigation.Perception.Message.{PointCloud2, stamp_nanoseconds}
use go2_local_navigation.Perception.Gate.{
  GateNode, on_cloud, assess_mapping_cloud, max_cloud_age_nanoseconds,
}
use go2_local_navigation.Validation.FaultFixture.{
  FaultKind, malformed_layout, empty_cloud, nan_cloud, stale_cloud, baseline_clock, suppressed_at,
}
use go2_local_navigation.Validation.FixtureNode.{cloud_message, time_of, fault_cloud}

-- The faults of which the cloud itself is the fault.
pub data CloudFault : FaultKind → Type 0 where
  malformed : CloudFault malformed_layout
  empty : CloudFault empty_cloud
  nan : CloudFault nan_cloud
  stale : CloudFault stale_cloud

-- The gate publishes nothing for the cloud of a cloud fault, at whatever time it arrives, once it has
-- let a cloud with the stamp of the baseline through, if `read_points` finds no finite point in the
-- cloud whose point is NaN.
pub fault_cloud-suppressed :
    (read_points : PointCloud2 → Option ℕ) (kind : FaultKind) (now : ℤ) (n : GateNode)
    → CloudFault kind
    → read_points (fault_cloud nan_cloud suppressed_at) ≡ some 0
    → n.previous_stamp_nanoseconds ≡ some baseline_clock
    → on_cloud read_points (fault_cloud kind suppressed_at) now n ≡ n
unfolding on_cloud assess_mapping_cloud fault_cloud cloud_message time_of stamp_nanoseconds ◌*ℤ◌
    ◌+ℤ◌
fault_cloud-suppressed read_points kind now n malformed h p = refl
fault_cloud-suppressed read_points kind now n empty h p = refl
fault_cloud-suppressed read_points kind now n nan h p =
    elim (Bool-cases (ltb_ℤ max_cloud_age_nanoseconds (now -ℤ suppressed_at))) [
      | inl late ↦ rw p (rw late refl)
      | inr fresh ↦ rw p (rw fresh (rw h (rw p refl)))
    ]
fault_cloud-suppressed read_points kind now n stale h p = rw p refl
