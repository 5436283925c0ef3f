-- ===== src/SuperScan/Mocked.antt =====
-- The device classes on a mock client do what they are told.
use phone_app.Base.{ℕ, ◌≤◌, ◌≡◌, Bool, true, ◌&&◌, arith, ◌==◌, if◌then◌else◌}
use phone_app.Base.Int.{pos}
use phone_app.Ads.State.{Pyads}
use phone_app.Devices.Levels.{byte_to_pct, byte_to_pct-le, byte_to_pct-pct_to_byte}
use phone_app.Devices.Dali.{set_brightness, read_actual_level}
use phone_app.Devices.Relays.{
  set_relay, read_relay, set_named, read_named, set_appliance, read_appliance,
}
use phone_app.Devices.Curtain.{set_command, read_curtain}
use phone_app.Devices.Wire.{read_bool}
use phone_app.SuperScan.Objects.{Rig, objects, read_of, set_of, relay_obj, appliance_obj}
use phone_app.SuperScan.Restoring.{IsRead, Settles, Obedient}

-- A mock client, and a toggle that may be written.
abbrev pub is_ready : {W : Type 0} → Rig W → Bool
is_ready r = r.client.mock && r.toggle.writable

abbrev pub level_of : {W : Type 0} → ℕ → Rig W → ℕ
level_of o r = byte_to_pct (pos r.dali.mock_level)

abbrev pub state_of : {W : Type 0} → ℕ → Rig W → Bool
state_of o r =
    if o == relay_obj
    then r.relay.mock_state
    else if o == appliance_obj
    then r.appliance.mock_state
    else r.toggle.mock_state

abbrev pub command_of : {W : Type 0} → ℕ → Rig W → ℕ
command_of o r = r.curtain.mock_state

module _ {W : Type 0} (p : Pyads W) where
  pub read_level-mock :
      (o : ℕ) (r : Rig W)
      → is_ready r ≡ true
      → IsRead is_ready (level_of o) r ((objects p).read_level o r)
  unfolding read_actual_level
  read_level-mock o r h = ground arith

  pub read_state-mock :
      (o : ℕ) (r : Rig W)
      → is_ready r ≡ true
      → IsRead is_ready (state_of o) r ((objects p).read_state o r)
  unfolding read_of read_relay read_appliance read_named read_bool
  read_state-mock o r h = ground arith

  pub read_curtain-mock :
      (o : ℕ) (r : Rig W)
      → is_ready r ≡ true
      → IsRead is_ready (command_of o) r ((objects p).read_curtain o r)
  unfolding read_curtain
  read_curtain-mock o r h = ground arith

  pub set_brightness-mock :
      (o v : ℕ) (r : Rig W)
      → is_ready r ≡ true
      → v ≤ 100
      → Settles is_ready (level_of o) (objects p).sleep v ((objects p).set_brightness o v r)
  unfolding set_brightness
  set_brightness-mock o v r h le = ground (arith, byte_to_pct-pct_to_byte v le)

  pub set_state-mock :
      (o : ℕ) (b : Bool) (r : Rig W)
      → is_ready r ≡ true
      → Settles is_ready (state_of o) (objects p).sleep b ((objects p).set_state o b r)
  unfolding set_of set_relay set_appliance set_named
  set_state-mock o b r h = ground arith

  pub set_command-mock :
      (o v : ℕ) (r : Rig W)
      → is_ready r ≡ true
      → v ≤ 2
      → Settles is_ready (command_of o) (objects p).sleep v ((objects p).set_command o v r)
  unfolding set_command
  set_command-mock o v r h le = ground arith

  abbrev pub mock_obedient : Obedient (objects p)
  mock_obedient = record {
    is_ready = is_ready;
    level = level_of;
    state = state_of;
    command = command_of;
    level_law = λ o r. byte_to_pct-le (pos r.dali.mock_level);
    read_level_law = read_level-mock;
    read_state_law = read_state-mock;
    read_curtain_law = read_curtain-mock;
    set_brightness_law = set_brightness-mock;
    set_state_law = set_state-mock;
    set_command_law = set_command-mock;
  }
