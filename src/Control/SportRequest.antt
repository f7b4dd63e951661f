-- ===== src/Control/SportRequest.antt =====
-- src/go2_control/go2_control/sport_request.py: the payloads of Sport requests.
use Prim.Native.String.{◌++◌}
use go2_local_navigation.Prelude.{ℕ, String, Result, ok, err, if◌then◌else◌}
use go2_local_navigation.Prelude.Float.{Float}
use go2_local_navigation.Control.Motion.{MotionCommand, command_is_finite}

abbrev pub move_api_id : ℕ
move_api_id = 1008

abbrev pub stop_move_api_id : ℕ
stop_move_api_id = 1003

pub record SportRequestData : Type 0 where
  pub api_id : ℕ
  pub parameter : String

-- The `ValueError` of `json.dumps(..., allow_nan=False)`.
pub data RequestError : Type 0 where
  out_of_range_float : RequestError

module _ {F : Type 0} ⦃fl : Float F⦄ where
  abbrev pub move_parameter : MotionCommand F → String
  move_parameter c =
      "{\"x\":"
      ++ fl.repr c.velocity_x
      ++ ",\"y\":"
      ++ fl.repr c.velocity_y
      ++ ",\"z\":"
      ++ fl.repr c.yaw_rate
      ++ "}"

  unfoldable pub build_move_request : MotionCommand F → Result RequestError SportRequestData
  build_move_request c =
      if command_is_finite c
      then ok (record { api_id = move_api_id; parameter = move_parameter c })
      else err out_of_range_float

abbrev pub build_stop_request : SportRequestData
build_stop_request = record { api_id = stop_move_api_id; parameter = "" }
