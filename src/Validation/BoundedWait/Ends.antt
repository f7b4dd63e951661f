-- ===== src/Validation/BoundedWait/Ends.antt =====
-- The waits end.
use go2_local_navigation.Prelude.{
  ℕ, zero, suc, ◌+◌, ◌≤◌, ◌<◌, ◌≡◌, ◌⊎◌, inl, inr, refl, Bool, true, false, not, ◌&&◌, some, ltb,
  arith, Bool-cases,
}
use go2_local_navigation.Validation.BoundedWait.{World, wait_loop, wait_until, spin_until, tested}

-- Every spin takes at least a nanosecond.
abbrev pub IsTicking : World → Type 0
IsTicking w = (i : ℕ) → w.now i < w.now (suc i)

-- Why a wait ended: the test succeeded, ROS stopped, or the time was up.
pub data IsEnd (w : World) (stop : ℕ → Bool) (deadline i : ℕ) : Type 0 where
  stopped : stop i ≡ true → IsEnd w stop deadline i
  ros_down : w.ros_ok i ≡ false → IsEnd w stop deadline i
  time_up : deadline ≤ w.now i → IsEnd w stop deadline i

test_failed : (a b c : Bool) → a && b && not c ≡ false → (a ≡ false) ⊎ ((b ≡ false) ⊎ (c ≡ true))
test_failed false b c h = inl refl
test_failed true false c h = inr (inl refl)
test_failed true true true h = inr (inr refl)
test_failed true true false h = cc

end_of :
    (w : World) (stop : ℕ → Bool) (deadline i : ℕ)
    → w.ros_ok i && ltb (w.now i) deadline && not (stop i) ≡ false
    → IsEnd w stop deadline i
end_of w stop deadline i h = elim (test_failed (w.ros_ok i) (ltb (w.now i) deadline) (stop i) h) [
  | inl down ↦ ros_down down
  | inr (inl late) ↦ time_up (ground (arith, late))
  | inr (inr done) ↦ stopped done
]

time_left :
    (w : World) (stop : ℕ → Bool) (deadline i : ℕ)
    → w.ros_ok i && ltb (w.now i) deadline && not (stop i) ≡ true
    → w.now i < deadline
time_left w stop deadline i h = ground (arith, h)

wait_loop-IsEnd :
    (w : World) (stop : ℕ → Bool) (deadline fuel i : ℕ)
    → IsTicking w
    → 1 ≤ fuel
    → deadline < w.now i + fuel
    → (k : ℕ) × (wait_loop w stop deadline fuel i ≡ some k) × IsEnd w stop deadline k
unfolding wait_loop
wait_loop-IsEnd w stop deadline zero i t p h = absurd (omega arith)
wait_loop-IsEnd w stop deadline (suc fuel) i t p h =
    elim (Bool-cases (w.ros_ok i && ltb (w.now i) deadline && not (stop i))) [
      | inl goes_on ↦
          let l = time_left w stop deadline i goes_on in
          rw goes_on
            (wait_loop-IsEnd w stop deadline fuel (suc i) t (omega (arith, l)) (omega (arith, t i)))
      | inr ends ↦ rw ends (i, refl, end_of w stop deadline i ends)
    ]

pub wait_until-IsEnd :
    (w : World) (stop : ℕ → Bool) (timeout : ℕ)
    → IsTicking w
    → (k : ℕ) × (wait_until w stop timeout ≡ some k) × IsEnd w stop (w.now 0 + timeout) k
unfolding wait_until
wait_until-IsEnd w stop timeout t =
    wait_loop-IsEnd w stop (w.now 0 + timeout) (suc timeout) 0 t (omega arith) (omega arith)

-- A wait for a condition ends and says whether it holds at the end, if every spin takes at least a
-- nanosecond of the clock: by then the condition held after a spin, ROS has stopped, or the deadline
-- has passed.
pub spin_until-IsEnd :
    (w : World) (condition : ℕ → Bool) (timeout : ℕ)
    → IsTicking w
    → (k : ℕ) × (spin_until w condition timeout ≡ some (condition k))
      × IsEnd w (tested condition) (w.now 0 + timeout) k
unfolding spin_until
spin_until-IsEnd w condition timeout t =
    let (k, e, end) = wait_until-IsEnd w (tested condition) timeout t in (k, rw e refl, end)
