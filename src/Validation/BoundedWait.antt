-- ===== src/Validation/BoundedWait.antt =====
-- The waits with a deadline: src/go2_validation/go2_validation/offline_process.py, the waits of
-- mapping_player_services.py and mapping_slam_services.py, and what they guard. `World` is what the
-- code reads before its next spin, by the number of spins that it has made since the wait began.
pub mod Ends
use go2_local_navigation.Prelude.{
  ℕ, zero, suc, ◌+◌, String, Bool, true, false, not, ◌&&◌, ◌||◌, Option, none, some, List, [], ◌∷◌,
  Result, ok, err, ◌>>=◌, ◌>>◌, ltb, if◌then◌else◌,
}
use go2_local_navigation.Prelude.Int.{ℤ}

pub record World : Type 0 where
  -- `rclpy.ok()`
  pub ros_ok : ℕ → Bool
  -- `monotonic()` in nanoseconds
  pub now : ℕ → ℕ

-- `while rclpy.ok() and monotonic() < deadline and not stop: spin_once`, from `i` spins on, with fuel:
-- the number of spins. `none`: the fuel ran out.
unfoldable pub wait_loop : World → (ℕ → Bool) → ℕ → ℕ → ℕ → Option ℕ
wait_loop w stop deadline zero i = none
wait_loop w stop deadline (suc fuel) i =
    let rest = wait_loop w stop deadline fuel (suc i) in
    if w.ros_ok i && ltb (w.now i) deadline && not (stop i) then rest else some i

-- The deadline is read off before the first spin, and the fuel is one more than the time to it.
unfoldable pub wait_until : World → (ℕ → Bool) → ℕ → Option ℕ
unfolding wait_loop
wait_until w stop timeout = wait_loop w stop (w.now 0 + timeout) (suc timeout) 0

abbrev after_spins : (ℕ → Bool) → Option ℕ → Option Bool
after_spins condition none = none
after_spins condition (some i) = some (condition i)

-- `spin_until` tests its condition after a spin, and once more at the end
abbrev pub tested : (ℕ → Bool) → ℕ → Bool
tested condition zero = false
tested condition (suc i) = condition (suc i)

unfoldable pub spin_until : World → (ℕ → Bool) → ℕ → Option Bool
unfolding wait_until
spin_until w condition timeout = after_spins condition (wait_until w (tested condition) timeout)

unfoldable pub spin_for : World → ℕ → Option ℕ
unfolding wait_until
spin_for w duration = wait_until w (λ i. false) duration

-- `_wait_future`: whether the future was done at the end
unfoldable pub wait_future : World → (ℕ → Bool) → ℕ → Option Bool
unfolding wait_until
wait_future w done timeout = after_spins done (wait_until w done timeout)

-- The owned process: what `poll` and the two waits with a timeout say, and the last wait.
pub record OwnedProcess : Type 0 where
  pub poll : Option ℤ
  pub wait_15 : Option ℤ
  pub wait_10 : Option ℤ
  pub wait_forever : ℤ

pub data Signal : Type 0 where
  sigint sigterm sigkill : Signal

abbrev after_sigterm : OwnedProcess → Option ℤ → ℤ × List Signal
after_sigterm p (some code) = (code, sigint ∷ sigterm ∷ [])
after_sigterm p none = (p.wait_forever, sigint ∷ sigterm ∷ sigkill ∷ [])

abbrev after_sigint : OwnedProcess → Option ℤ → ℤ × List Signal
after_sigint p (some code) = (code, sigint ∷ [])
after_sigint p none = after_sigterm p p.wait_10

abbrev with_return_code : OwnedProcess → Option ℤ → ℤ × List Signal
with_return_code p (some code) = (code, [])
with_return_code p none = after_sigint p p.wait_15

-- the return code, and the signals that were sent
unfoldable pub stop_owned_process : OwnedProcess → ℤ × List Signal
stop_owned_process p = with_return_code p p.poll

-- `MappingRuntimeError` and `SlamServiceError`: their reason codes
pub data RuntimeFailure : Type 0 where
  player_readiness_failed player_resume_timeout player_resume_failed : RuntimeFailure
  save_map_timeout save_map_failed serialize_timeout serialize_failed : RuntimeFailure
  deserialize_timeout deserialize_absent artifact_invalid : RuntimeFailure

abbrev raise_unless : RuntimeFailure → Bool → Result RuntimeFailure (Unit {0})
raise_unless e true = ok tt
raise_unless e false = err e

abbrev finished :
    {A : Type 0}
    → Option A
    → (A → Result RuntimeFailure (Unit {0}))
    → Option (Result RuntimeFailure (Unit {0}))
finished none f = none
finished (some a) f = some (f a)

-- `wait_until_ready`: it returns as soon as the player is there, and raises at the deadline, where it
-- does not look again
unfoldable pub wait_until_ready : World → (ℕ → Bool) → ℕ → Option (Result RuntimeFailure (Unit {0}))
unfolding wait_until
wait_until_ready w ready timeout =
    finished (wait_until w ready timeout)
      (λ i. raise_unless player_readiness_failed (w.ros_ok i && ltb (w.now i) (w.now 0 + timeout)))

-- The future of Resume once it is done: it failed, or has a response or none.
pub data ResumeOutcome : Type 0 where
  exception response_absent response : ResumeOutcome

abbrev resume_result : ResumeOutcome → Result RuntimeFailure (Unit {0})
resume_result exception = err player_resume_failed
resume_result response_absent = err player_resume_failed
resume_result response = ok tt

unfoldable pub resume :
    World → (ℕ → Bool) → ResumeOutcome → ℕ → Option (Result RuntimeFailure (Unit {0}))
unfolding wait_future
resume w done outcome timeout =
    finished (wait_future w done timeout)
      (λ b. if b then resume_result outcome else err player_resume_timeout)

-- `wait_until_ready` of the SLAM services: three waits within one deadline. Before each wait the
-- clock is read, and a wait says whether the service was found within the time that is left.
unfoldable pub services_ready : ℕ → List (ℕ × Bool) → Bool
services_ready deadline [] = true
services_ready deadline ((now, found) ∷ rest) =
    let later = services_ready deadline rest in
    if not (ltb now deadline) || not found then false else later

-- A call of a SLAM service: whether it was done in time, and whether its response is a success.
-- For the last call any response is one.
pub record ServiceCall : Type 0 where
  pub in_time : Bool
  pub succeeded : Bool

abbrev service_result :
    RuntimeFailure → RuntimeFailure → ServiceCall → Result RuntimeFailure (Unit {0})
service_result late refused c = raise_unless late c.in_time >> raise_unless refused c.succeeded

-- `save_serialize_reload`: the artifacts are checked between the second and the third call
unfoldable pub save_serialize_reload :
    {A : Type 0} → ServiceCall → ServiceCall → Option A → ServiceCall → Result RuntimeFailure A
save_serialize_reload save serialize none deserialize =
    service_result save_map_timeout save_map_failed save
    >> (service_result serialize_timeout serialize_failed serialize >> err artifact_invalid)
save_serialize_reload save serialize (some artifacts) deserialize =
    service_result save_map_timeout save_map_failed save
    >> (service_result serialize_timeout serialize_failed serialize
        >> (service_result deserialize_timeout deserialize_absent deserialize >> ok artifacts))
