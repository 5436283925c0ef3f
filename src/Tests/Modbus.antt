-- ===== src/Tests/Modbus.antt =====
-- Runs of the Modbus client on a small coupler over the small PLC.
use phone_app.Base.{◌+◌, ◌≡◌, true, false, some, List, [], ◌∷◌, if◌then◌else◌, codes}
use phone_app.Base.{not}
use phone_app.Base.Int.{pos, negsuc, eqb_ℤ}
use phone_app.Ads.State.{value, exception}
use phone_app.Modbus.{Pymodbus, ModbusClient, new_modbus, error_response, reply}
use phone_app.Modbus.Points.{
  read_dali_level, write_dali_level, read_relay, write_relay, read_curtain, write_curtain_button,
}
use phone_app.Modbus.Calls.{
  ModbusCall, call_read_level, call_write_relay, call_read_curtain, call_connect, call_disconnect,
  call_wake, modbus_run,
}
use phone_app.Modbus.Invariant.{IsSound, modbus_run-IsSound}
use phone_app.Modbus.Bounds.{Elsewhere, is_below, with_elsewhere, points_in_map}
use phone_app.Tests.Plc.{World, world, no_answer}

-- Every light is at level 128, the first relay is on, and a coil beyond the eighth is refused.
abbrev pub coupler : Pymodbus World
coupler = record {
  monotonic = λ w. w.clock;
  sleep = λ ms w. record w { clock = w.clock + ms };
  open_client = λ ip port w. (value (9, w.reachable), w);
  close = λ k w. w;
  read_input_registers =
      λ k a u w. ((if w.reachable then value (reply (128 ∷ [])) else exception no_answer), w);
  read_discrete_inputs =
      λ k a u w. (value (if is_below 8 a then reply (eqb_ℤ a (pos 0) ∷ []) else error_response), w);
  write_register = λ k a v u w. ((if w.reachable then value false else exception no_answer), w);
  write_coil = λ k a on u w. (value (not (is_below 8 a)), w);
}

abbrev pub coupled : ModbusClient
coupled = record (new_modbus (codes "10.0.0.3") 502 1 false) {
  client = some 9;
  connected = true;
  connected_since = some 0;
}

abbrev calls : List ModbusCall
calls =
    call_read_level (pos 3)
    ∷ call_connect
    ∷ call_write_relay (pos 2) true
    ∷ call_read_curtain (negsuc 8)
    ∷ call_disconnect
    ∷ call_wake
    ∷ []

modbus_run-IsSound_example :
    IsSound (modbus_run coupler calls (new_modbus (codes "10.0.0.3") 502 1 false) world).0
modbus_run-IsSound_example = modbus_run-IsSound coupler (codes "10.0.0.3") 502 1 false calls world

-- A server whose other registers and coils are all refused.
abbrev refusing : Elsewhere World
refusing = record {
  register = λ k a u w. (value error_response, w);
  input = λ k a u w. (value error_response, w);
  set_register = λ k a v u w. (value true, w);
  set_coil = λ k a on u w. (value true, w);
}

points_in_map_example :
    let q = with_elsewhere refusing coupler in
    (read_dali_level q (negsuc 0) coupled world ≡ read_dali_level coupler (negsuc 0) coupled world)
    × (write_dali_level q (negsuc 0) 254 coupled world
        ≡ write_dali_level coupler (negsuc 0) 254 coupled world)
    × (read_relay q (negsuc 0) coupled world ≡ read_relay coupler (negsuc 0) coupled world)
    × (write_relay q (negsuc 0) true coupled world
        ≡ write_relay coupler (negsuc 0) true coupled world)
    × (read_curtain q (negsuc 0) coupled world ≡ read_curtain coupler (negsuc 0) coupled world)
    × (write_curtain_button q (negsuc 0) true coupled world
        ≡ write_curtain_button coupler (negsuc 0) true coupled world)
points_in_map_example = points_in_map refusing coupler (negsuc 0) 254 true coupled world
