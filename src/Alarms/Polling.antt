-- ===== src/Alarms/Polling.antt =====
-- find_device/tasks.py: `poll_plc_state`.
use phone_app.Base.{ℕ, Option, none, some, List, [], ◌∷◌, ◌++◌, ltb, if◌then◌else◌, Text, codes}
use phone_app.Base.{decimal}
use phone_app.Base.Int.{pos}
use phone_app.Ads.State.{Value, bool, num}
use phone_app.EventBus.{Bus, publish}
use phone_app.Realtime.{Cache, update}
use phone_app.Registry.Poll.{FullState}
use phone_app.Registry.Fallback.{Readings}

-- `f"{n:02d}"`
unfoldable pub two_digits : ℕ → Text
unfolding decimal
two_digits n = if ltb n 10 then codes "0" ++ decimal n else decimal n

-- The two singletons that the task writes to.
abbrev pub Published : Type 0
Published = Cache × Bus Value

-- `_pub`
unfoldable pub pub_value : ℕ → ℕ → Text → Value → Published → Published
pub_value ts device var v (cache, bus) =
    (update device var v (some ts) ts cache, publish device var v (some ts) ts bus)

-- One loop over a dict of the state: the variable's name up to the channel, and the value.
unfoldable pub publish_readings :
    {A : Type 0} → ℕ → ℕ → Text → (A → Value) → Readings A → Published → Published
unfolding pub_value two_digits
publish_readings ts device prefix of [] s = s
publish_readings ts device prefix of ((ch, none) ∷ rest) s =
    publish_readings ts device prefix of rest s
publish_readings ts device prefix of ((ch, some v) ∷ rest) s =
    publish_readings ts device prefix of rest
      (pub_value ts device (prefix ++ two_digits ch) (of v) s)

abbrev pub number : ℕ → Value
number n = num (pos n)

-- The six loops.
unfoldable pub publish_state : ℕ → ℕ → FullState → Published → Published
unfolding publish_readings
publish_state ts device state s0 =
    let s1 = publish_readings ts device (codes "gvlDALI.nPyChannel_") number state.dali s0 in
    let s2 = publish_readings ts device (codes "gvlIO.bPyRelay_") bool state.relays s1 in
    let s3 =
      publish_readings ts device (codes "gvlIO.nPyCurtainPos_") number state.singles.curtains s2 in
    let s4 =
      publish_readings ts device (codes "gvlIO.bPyDoor_") bool state.singles.door_sensors s3 in
    let s5 =
      publish_readings ts device (codes "gvlIO.bPyWindow_") bool state.singles.window_sensors s4 in
    publish_readings ts device (codes "gvlIO.bPyMotion_") bool state.singles.motion_sensors s5

-- `poll_plc_state`: the apartments with an active device, each with its device and what its registry
-- read; `none` is an exception there, after which the loop goes on with the next.
unfoldable pub poll_plc_state : ℕ → List (ℕ × Option FullState) → Published → Published
unfolding publish_state
poll_plc_state ts [] s = s
poll_plc_state ts ((device, none) ∷ rest) s = poll_plc_state ts rest s
poll_plc_state ts ((device, some state) ∷ rest) s =
    poll_plc_state ts rest (publish_state ts device state s)
