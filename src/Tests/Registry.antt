-- ===== src/Tests/Registry.antt =====
-- A small apartment: its rows, its registry, and polls and writes of it.
use phone_app.Registry.Fades.{should_continue, fade_dali}
use phone_app.Registry.FadeThreads.{
  older_fade_ends, is_write, writes_of, fade_step, set_level, fade_run, test_token, FadeEvent,
  Fading,
}
use phone_app.Base.{
  ◌≤◌, ℕ, ◌≡◌, ◌⊎◌, refl, true, false, ◌||◌, none, some, List, [], ◌∷◌, ◌++◌, arith, if◌then◌else◌,
  Text, codes, eqb,
}
use phone_app.Base.{get_at}
use phone_app.Base.Int.{pos}
use phone_app.Ads.State.{
  is_symbol_error, new_client, exception, bool, value, Pyads, PlcType, plc_bool,
}
use phone_app.Devices.Dali.{new_dali, set_brightness}
use phone_app.Devices.Inputs.{input_var, InputDevice, switch_input}
use phone_app.Registry.{Registry, new_registry}
use phone_app.Registry.Loading.{Row, Scheme, Format, type_dali, type_custom, add_row, load_rows}
use phone_app.Registry.Rows.{dali_of}
use phone_app.Registry.Fallback.{write_dali_brightness, fill_dali_gaps}
use phone_app.Registry.Paths.{
  is_ok, modbus_takes, write_dali_paths, FilledAt, fill_dali_gaps-FilledAt,
}
use phone_app.Registry.Poll.{read_full_state}
use phone_app.Registry.Groups.{is_answer, IsBlank, read_full_state-IsBlank}
use phone_app.Tests.Plc.{no_symbol, World, plc, world, dark_world, fresh, online}
use phone_app.Tests.Modbus.{coupler, coupled}

abbrev pub light : ℕ → Row
light n = record {
  pk = n;
  room = none;
  device_type = type_dali;
  channel_or_index = some n;
  gvl_name = [];
  name = codes "light";
  address_scheme = none;
}

-- A template that has a brace is not accepted.
abbrev pub format : Format
format template gvl index gvl_name =
    if eqb template (codes "{bad}") then none else some (gvl ++ template)

abbrev pub empty : Registry
empty = new_registry 16 online (some coupled)

abbrev pub home : Registry
home = (load_rows format (light 3 ∷ light 17 ∷ []) empty).1

abbrev bad_scheme : Scheme
bad_scheme = record {
  gvl = codes "gvlController.";
  index_offset = pos 0;
  read_var_template = codes "{bad}";
  write_var_template = [];
  commit_var_template = [];
  plc_type = plc_bool;
}

abbrev custom : Row
custom = record (light 5) { device_type = type_custom; address_scheme = some bad_scheme }

write_dali_paths_example :
    let (x, r1, w1) = write_dali_brightness plc coupler 3 (pos 40) home dark_world in
    let (y, c, u) = set_brightness plc (dali_of 3 (light 3)) (pos 40) home.client dark_world in
    (is_ok x ≡ (is_ok y || modbus_takes plc coupler 3 (pos 40) home.modbus u))
    × ((is_ok y ≡ false) ⊎ ((r1.modbus ≡ home.modbus) × (w1 ≡ u)))
unfolding load_rows add_row new_dali new_registry
write_dali_paths_example =
    write_dali_paths plc coupler 3 (pos 40) home dark_world {d = dali_of 3 (light 3)} refl

fill_dali_gaps-FilledAt_example : FilledAt plc coupler 3 (some none) (
    get_at 3
      (fill_dali_gaps coupler (3 ∷ 17 ∷ []) ((3, none) ∷ (17, none) ∷ []) (some coupled) world).0)
fill_dali_gaps-FilledAt_example =
    fill_dali_gaps-FilledAt plc coupler (3 ∷ 17 ∷ []) ((3, none) ∷ (17, none) ∷ []) (some coupled)
      world 3

abbrev cut_off : Registry
cut_off = record home { client = fresh; modbus = none }

read_full_state-IsBlank_example :
    let (f, _, u) = read_full_state plc coupler cut_off world in
    IsBlank plc coupler cut_off f × (u ≡ world)
unfolding new_client
read_full_state-IsBlank_example = read_full_state-IsBlank plc coupler cut_off world refl refl refl

abbrev button : ℕ → InputDevice
button n = record {
  kind = switch_input n;
  name = codes "button";
  room = codes "hall";
  mock_state = false;
}

abbrev pub inputs : List (ℕ × InputDevice)
inputs = (1, button 1) ∷ (2, button 2) ∷ []

-- A PLC that has the input of the first button only.
abbrev partial : Pyads World
partial = record plc {
  read_by_name = λ k v t w.
      ((if eqb v (input_var (switch_input 1)) then value (bool true) else exception no_symbol), w);
}

answers : (v : Text) (t : PlcType) → is_answer (partial.read_by_name 7 v t world).0 ≡ true
unfolding is_symbol_error
answers v t = ground arith

-- The same PLC, whose batch reads fail on the missing symbols.
abbrev no_batch : Pyads World
no_batch = record partial { read_list_by_name = λ k vs w. (exception no_symbol, w) }

-- The first fade of channel 3 has tested its token and not yet written when a second one starts.
abbrev fading : Fading
fading = record { registry = home; cleared = λ c g. false }

abbrev overlap : List FadeEvent
overlap = test_token 3 1 ∷ set_level 3 1 ∷ test_token 3 1 ∷ []

abbrev afterwards : List FadeEvent
afterwards = test_token 3 2 ∷ set_level 3 2 ∷ set_level 3 1 ∷ test_token 3 1 ∷ set_level 3 1 ∷ []

older_fade_ends_example :
    let t = fade_run overlap (record fading { registry = (fade_dali 3 home).1 }) in
    writes_of 3 1 afterwards (record t { registry = (fade_dali 3 t.registry).1 })
    ≤ (if t.cleared 3 1 then 1 else 0)
unfolding fade_dali load_rows add_row new_dali new_registry fade_run fade_step should_continue
older_fade_ends_example =
    older_fade_ends 3 fading overlap afterwards {g = 1} {h = 2} {r1 = (fade_dali 3 home).1}
      {r2 = (fade_dali 3
        (fade_run overlap (record fading { registry = (fade_dali 3 home).1 })).registry).1}
      refl refl

-- There it does write once more, after the newer fade has written.
older_fade_writes :
    let t = fade_run overlap (record fading { registry = (fade_dali 3 home).1 }) in
    writes_of 3 1 afterwards (record t { registry = (fade_dali 3 t.registry).1 }) ≡ 1
unfolding fade_dali load_rows add_row new_dali new_registry fade_run fade_step writes_of is_write
    should_continue
older_fade_writes = refl
