-- ===== src/Modbus/Calls.antt =====
-- Sequences of method calls on one ModbusClient, by whichever threads: each call is a step.
use phone_app.Base.{ℕ, Bool, List, [], ◌∷◌}
use phone_app.Base.Int.{ℤ}
use phone_app.Modbus.{Pymodbus, ModbusClient, connect, disconnect, reconnect_wake, stop_reconnect}
use phone_app.Modbus.Points.{
  read_dali_level, write_dali_level, read_relay, write_relay, read_curtain, write_curtain_button,
}

pub data ModbusCall : Type 0 where
  call_read_level call_read_relay call_read_curtain : ℤ → ModbusCall
  call_write_level : ℤ → ℕ → ModbusCall
  call_write_relay call_write_curtain : ℤ → Bool → ModbusCall
  call_connect call_disconnect call_wake call_stop : ModbusCall

module _ {W : Type 0} (p : Pymodbus W) where
  abbrev pub after : {A : Type 0} → A × ModbusClient × W → ModbusClient × W
  after (_, c, w) = (c, w)

  unfoldable pub modbus_step : ModbusCall → ModbusClient → W → ModbusClient × W
  modbus_step (call_read_level ch) c w = after (read_dali_level p ch c w)
  modbus_step (call_read_relay r) c w = after (read_relay p r c w)
  modbus_step (call_read_curtain i) c w = after (read_curtain p i c w)
  modbus_step (call_write_level ch v) c w = after (write_dali_level p ch v c w)
  modbus_step (call_write_relay r on) c w = after (write_relay p r on c w)
  modbus_step (call_write_curtain i on) c w = after (write_curtain_button p i on c w)
  modbus_step call_connect c w = after (connect p c w)
  modbus_step call_disconnect c w = disconnect p c w
  modbus_step call_wake c w = after (reconnect_wake p c w)
  modbus_step call_stop c w = (stop_reconnect c, w)

  unfoldable pub modbus_run : List ModbusCall → ModbusClient → W → ModbusClient × W
  modbus_run [] c w = (c, w)
  modbus_run (k ∷ ks) c w = let (d, u) = modbus_step k c w in modbus_run ks d u
