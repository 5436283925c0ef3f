-- ===== src/Tests/SuperScan.antt =====
-- Runs of a scan on three devices that do what they are told.
use phone_app.SuperScan.{
  sweep, read_pass, not_tested, input, output, has_key, Capability, find_row, touched, Item,
  upsert_capability, writable_items, testable_items, is_testable,
}
use phone_app.SuperScan.Active.{safe_active_test, Devices, test_pass}
use phone_app.Base.{eqb, ◌&&◌, ◌||◌, ◌==◌}
use phone_app.Base.{
  refl, any, [], none, ◌≡◌, true, ◌∷◌, if◌then◌else◌, codes, some, Bool, List, false, ℕ,
}
use phone_app.SuperScan.Rows.{is_item, is_present}
use phone_app.SuperScan.Presence.{scan_presence, is_unmodelled, is_deep}
use phone_app.SuperScan.Objects.{Rig, objects}
use phone_app.Devices.Levels.{byte_to_pct}
use phone_app.Base.Int.{pos}
use phone_app.Ads.State.{new_client}
use phone_app.Tests.Plc.{World, plc, world}
use phone_app.SuperScan.Mocked.{mock_obedient}
use phone_app.SuperScan.Deep.{
  Symbol, Scanner, deep, unknown_symbol, run_scan, read_and_test, test_after, scan_unknown,
  finish_scan, deep_unknown_pass, unknown_found, unknown_each, known_names, upsert_unknown,
  unknown_row,
}
use phone_app.SuperScan.Restoring.{active_test_restores}

pub record House : Type 0 where
  pub level : ℕ
  pub lit : Bool
  pub command : ℕ

abbrev house : Devices House
house = record {
  read_level = λ o s. (some s.level, s);
  set_brightness = λ o v s. (some tt, record s { level = v });
  read_state = λ o s. (some s.lit, s);
  set_state = λ o b s. (some tt, record s { lit = b });
  read_curtain = λ o s. (some s.command, s);
  set_command = λ o v s. (some tt, record s { command = v });
  sleep = λ ms s. s;
  connected = λ s. true;
  cancel_requested = λ s. false;
}

-- The program's own objects on a mock client.
abbrev rig : Devices (Rig World)
rig = objects plc

abbrev evening_rig : Rig World
evening_rig = record {
  client = new_client (codes "10.0.0.2.1.1") (codes "10.0.0.2") true (some 851);
  world = world;
  dali = record {
    channel = 4;
    name = codes "sofa";
    room = codes "living";
    apartment_device_id = 12;
    mock_level = 190;
  };
  relay = record { channel = 1; name = []; room = []; mock_state = false };
  appliance = record { gvl_name = codes "Fridge"; name = []; room = []; mock_state = true };
  toggle = record {
    var_name = codes "bFan";
    name = [];
    room = [];
    writable = true;
    mock_state = true;
  };
  curtain = record { index = 2; name = []; room = []; mock_state = 2 };
  cancelled = false;
}

active_test_restores_example :
    let dali = safe_active_test rig (codes "dali") 1 evening_rig in
    let relay = safe_active_test rig (codes "relay") 1 evening_rig in
    let appliance = safe_active_test rig (codes "appliance") 1 evening_rig in
    let toggle = safe_active_test rig (codes "toggle") 1 evening_rig in
    let curtain = safe_active_test rig (codes "curtain") 1 evening_rig in
    ((dali.0 ≡ true) × (byte_to_pct (pos dali.1.dali.mock_level) ≡ 75))
    × ((relay.0 ≡ true) × (relay.1.appliance.mock_state ≡ true))
    × ((appliance.0 ≡ true) × (appliance.1.appliance.mock_state ≡ true))
    × ((toggle.0 ≡ true) × (toggle.1.appliance.mock_state ≡ true))
    × ((curtain.0 ≡ true) × (curtain.1.curtain.mock_state ≡ 0))
unfolding new_client byte_to_pct
active_test_restores_example = active_test_restores rig (mock_obedient plc) 1 evening_rig refl

abbrev evening : House
evening = record { level = 75; lit = false; command = 0 }

-- Reading a relay fails as long as it is on.
abbrev flaky : Devices House
flaky = record house { read_state = λ o s. ((if s.lit then none else some s.lit), s) }

abbrev lamp_item : Item
lamp_item = record {
  device_type = codes "dali";
  identifier = codes "4";
  direction = output;
  data_type = codes "percent";
  valid_range = codes "0-100";
  name = codes "sofa";
  room = codes "living";
  apartment_device = some 12;
  obj = 4;
}

abbrev switch_item : Item
switch_item = record lamp_item { device_type = codes "switch"; direction = input; obj = 5 }

abbrev old_rows : List Capability
old_rows = touched lamp_item 1 (some (codes "30")) not_tested false [] ∷ []

-- The second scan, a deep one, knows the switch only and cannot read it; the PLC lists three symbols.
abbrev pump : Symbol
pump = record {
  gvl = codes "GVL";
  full_name = codes "GVL.bPump";
  name = codes "bPump";
  label = [];
  type_name = codes "BOOL";
}

abbrev symbols : List Symbol
symbols =
    record pump { gvl = codes "Global_Version" }
    ∷ record pump { full_name = codes "GVL.bSwitch" }
    ∷ pump
    ∷ []

abbrev scanner : Scanner House
scanner = record {
  devices = house;
  read_value = λ o s. (none, s);
  raw_var_names = λ o. if o == 5 then codes "GVL.bSwitch" ∷ [] else [];
  refresh_cache = λ s. (some symbols, s);
  check_cancel = λ s. (false, s);
}

scan_presence_example :
    let rows = (run_scan scanner deep 2 (switch_item ∷ []) old_rows evening).1 in
    is_present (find_row unknown_symbol (codes "GVL.bPump") rows) ≡ (
      any (is_item unknown_symbol (codes "GVL.bPump")) (switch_item ∷ [])
      || (is_deep deep
          && eqb unknown_symbol unknown_symbol
          && any
              (is_unmodelled scanner.raw_var_names (switch_item ∷ []) (codes "GVL.bPump"))
              symbols))
unfolding find_row has_key touched read_pass run_scan read_and_test test_after test_pass
    writable_items testable_items is_testable scan_unknown finish_scan deep_unknown_pass
    unknown_found unknown_each known_names
scan_presence_example =
    scan_presence scanner deep 2 (switch_item ∷ []) old_rows evening unknown_symbol
      (codes "GVL.bPump") refl refl

-- The pump is found, and the light of the first scan is gone.
deep_scan_finds :
    let rows = (run_scan scanner deep 2 (switch_item ∷ []) old_rows evening).1 in
    (is_present (find_row unknown_symbol (codes "GVL.bPump") rows) ≡ true)
    × (is_present (find_row unknown_symbol (codes "GVL.bSwitch") rows) ≡ false)
    × (is_present (find_row (codes "dali") (codes "4") rows) ≡ false)
    × (is_present (find_row (codes "switch") (codes "4") rows) ≡ true)
unfolding find_row has_key touched read_pass run_scan read_and_test test_after test_pass
    writable_items testable_items is_testable scan_unknown finish_scan deep_unknown_pass
    unknown_found unknown_each known_names upsert_capability upsert_unknown unknown_row sweep
deep_scan_finds = (refl, refl, refl, refl)
