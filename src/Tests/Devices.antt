-- ===== src/Tests/Devices.antt =====
-- Runs of the device classes on the small PLC.
use phone_app.Ads.Io.{count_writes, finish_write, guarded_write, write}
use phone_app.Devices.Wire.{pulse}
use phone_app.Base.Int.{pos}
use phone_app.Devices.Curtain.{
  var_close_btn, var_open_btn, up, down, press, set_command, CurtainMotor,
}
use phone_app.Devices.Dali.{var_set_level, var_level, commit_level, set_brightness, DaliChannel}
use phone_app.Base.{◌≤◌, ◌≡◌, refl, true, false, none, some, arith, ◌==◌, if◌then◌else◌, codes, eqb}
use phone_app.Ads.State.{num, ensure_connected, bool, new_client}
use phone_app.Devices.Protocol.{set_brightness_stores, set_command_stores}
use phone_app.Devices.Levels.{byte_to_pct, pct_to_byte, byte_to_pct-pct_to_byte}
use phone_app.Tests.Plc.{World, plc, memory, world, online}

byte_to_pct-pct_to_byte_example : byte_to_pct (pos (pct_to_byte (pos 37))) ≡ 37
byte_to_pct-pct_to_byte_example = byte_to_pct-pct_to_byte 37 (ground arith)

abbrev channel : DaliChannel
channel = record {
  channel = 4;
  name = codes "sofa";
  room = codes "living";
  apartment_device_id = 12;
  mock_level = 30;
}

set_brightness_stores_example :
    let after = (set_brightness plc channel (pos 50) online world).2 in
    (after.vars (codes "gvlController.aDaliLevel[4]") ≡ some (num (pos (pct_to_byte (pos 50)))))
    × (after.vars (codes "gvlController.aDaliSetLevel[4]") ≡ some (bool false))
    × (after.vars (codes "lamp") ≡ some (bool true))
unfolding new_client set_brightness commit_level pulse write guarded_write ensure_connected
    finish_write count_writes var_level var_set_level
set_brightness_stores_example =
    set_brightness_stores plc memory channel channel (pos 50) online
      (set_brightness plc channel (pos 50) online world).1 world
      (set_brightness plc channel (pos 50) online world).2 (codes "lamp") refl refl refl refl

abbrev curtain : CurtainMotor
curtain = record { index = 2; name = codes "left"; room = codes "living"; mock_state = 0 }

set_command_stores_example :
    let after = (set_command plc curtain down online world).2 in
    (down ≤ 2)
    × (after.vars (var_open_btn curtain) ≡ some (bool (down == up)))
    × (after.vars (var_close_btn curtain) ≡ some (bool (down == down)))
unfolding new_client set_command press write guarded_write ensure_connected finish_write
    count_writes var_open_btn var_close_btn
set_command_stores_example =
    set_command_stores plc memory curtain curtain down online
      (set_command plc curtain down online world).1 world
      (set_command plc curtain down online world).2 refl refl

-- The close button is held, and its variable takes no more writes.
abbrev stuck_world : World
stuck_world = record world {
  refused = codes "gvlCurtain.bCurtain2CloseBtn";
  vars = λ u. if eqb u (codes "gvlCurtain.bCurtain2CloseBtn") then some (bool true) else none;
}
