-- ===== src/Registry/Loading.antt =====
-- find_device/plc/registry.py: `_load_devices_from_db`, the `add_…` methods and `refresh_devices`.
use phone_app.Base.{
  ℕ, suc, ◌+◌, ◌-◌, Bool, true, false, not, Option, none, some, List, [], ◌∷◌, ltb, if◌then◌else◌,
  Text, codes,
}
use phone_app.Base.{put_at, insert, is_in}
use phone_app.Base.Int.{negsuc, ℤ, pos}
use phone_app.Ads.State.{bool, num, PlcType, plc_bool, Result, ok, err}
use phone_app.Devices.Dali.{new_dali}
use phone_app.Devices.Relays.{new_wall_relay, new_named_relay, new_appliance, TemplatedDevice}
use phone_app.Devices.Curtain.{new_curtain}
use phone_app.Devices.Inputs.{
  new_input, switch_input, motion_sensor, door_sensor, window_sensor, named_switch,
}
use phone_app.Registry.{Registry}

-- `ApartmentDevice.device_type`
pub data DeviceType : Type 0 where
  type_dali type_relay type_switch type_curtain type_appliance type_door_sensor : DeviceType
  type_window_sensor type_motion_sensor type_toggle type_named_switch type_custom : DeviceType

-- `DeviceAddressScheme`, with its type as `_PLC_TYPE_MAP` gives it.
pub record Scheme : Type 0 where
  pub gvl : Text
  pub index_offset : ℤ
  pub read_var_template : Text
  pub write_var_template : Text
  pub commit_var_template : Text
  pub plc_type : PlcType

-- `ApartmentDevice`, with the name of its room.
pub record Row : Type 0 where
  pub pk : ℕ
  pub room : Option Text
  pub device_type : DeviceType
  pub channel_or_index : Option ℕ
  pub gvl_name : Text
  pub name : Text
  pub address_scheme : Option Scheme

abbrev pub room_name : Option Text → Text
room_name none = codes "Unassigned"
room_name (some room) = room

-- `NAMED_RELAY_READONLY`
abbrev pub named_relay_readonly : List Text
named_relay_readonly = codes "bventiliatorRelay" ∷ []

-- The comparison with a bound raises on `None`, and the constructor out of range.
abbrev pub built : {A : Type 0} → (ℕ → Result A) → Option ℕ → Option A
built f none = none
built f (some n) = elim (f n) [ ok a ↦ some a | err e ↦ none ]

abbrev pub stored : {A : Type 0} → Option A → (A → Registry) → Option Registry
stored none f = none
stored (some a) f = some (f a)

-- The key of a device that was built has been checked.
abbrev pub key : Option ℕ → ℕ
key none = 0
key (some n) = n

-- `channel_or_index + self.index_offset`
unfoldable pub shifted : ℕ → ℤ → ℤ
shifted n (pos m) = pos (n + m)
shifted n (negsuc m) = if ltb m n then pos (n - suc m) else negsuc (m - n)

abbrev pub index_of : Option ℕ → ℤ → Option ℤ
index_of none offset = none
index_of (some n) offset = some (shifted n offset)

abbrev pub is_plc_bool : PlcType → Bool
is_plc_bool plc_bool = true
is_plc_bool _ = false

-- `str.format` with the arguments `gvl`, `index` and `gvl_name`; a template that it does not accept
-- raises.
abbrev pub Format : Type 0
Format = Text → Text → Option ℤ → Text → Option Text

-- `DeviceAddressScheme.format_var`
unfoldable pub format_var : Format → Scheme → Text → Option ℕ → Text → Option Text
format_var format s template channel gvl_name =
    format template s.gvl (index_of channel s.index_offset) gvl_name

-- `fmt(t) if t else None`
unfoldable pub rendered : Format → Scheme → Row → Text → Option (Option Text)
rendered format s d [] = some none
rendered format s d (c ∷ t) = elim (format_var format s (c ∷ t) d.channel_or_index d.gvl_name) [
  | none ↦ none
  | some v ↦ some (some v)
]

abbrev pub templated_with :
    Row
    → Scheme
    → Option (Option Text)
    → Option (Option Text)
    → Option (Option Text)
    → Option TemplatedDevice
templated_with d s none _ _ = none
templated_with d s (some _) none _ = none
templated_with d s (some _) (some _) none = none
templated_with d s (some var_read) (some var_write) (some var_commit) = some (record {
  apartment_device_id = d.pk;
  name = d.name;
  room = room_name d.room;
  var_read = var_read;
  var_write = var_write;
  var_commit = var_commit;
  plctype = s.plc_type;
  mock_value = if is_plc_bool s.plc_type then bool false else num (pos 0);
})

-- `TemplatedDevice.__init__`
unfoldable pub new_templated : Format → Row → Scheme → Option TemplatedDevice
unfolding rendered
new_templated format d s =
    templated_with d s (rendered format s d s.read_var_template)
      (rendered format s d s.write_var_template) (rendered format s d s.commit_var_template)

-- The branches on the type of a row that has no scheme; `none` is an exception of the constructor.
unfoldable pub add_typed : DeviceType → Row → Registry → Option Registry
add_typed type_dali d r =
    stored (built (λ n. new_dali n d.name (room_name d.room) d.pk) d.channel_or_index)
      λ dev. record r { dali = put_at (key d.channel_or_index) dev r.dali }
add_typed type_relay d r =
    stored (built (λ n. new_wall_relay n d.name (room_name d.room)) d.channel_or_index)
      λ dev. record r { relays = put_at (key d.channel_or_index) dev r.relays }
add_typed type_switch d r =
    stored (built (λ n. new_input (switch_input n) d.name (room_name d.room)) d.channel_or_index)
      λ dev. record r { switches = put_at (key d.channel_or_index) dev r.switches }
add_typed type_curtain d r =
    stored (built (λ n. new_curtain n d.name (room_name d.room)) d.channel_or_index)
      λ dev. record r { curtains = put_at (key d.channel_or_index) dev r.curtains }
add_typed type_appliance d r =
    stored (built (λ n. new_appliance d.gvl_name d.name (room_name d.room)) (some 0))
      λ dev. record r { appliances = insert d.gvl_name dev r.appliances }
add_typed type_toggle d r =
    let writable = not (is_in d.gvl_name named_relay_readonly) in
    let dev = new_named_relay d.gvl_name d.name (room_name d.room) writable in
    some (record r { toggles = insert d.gvl_name dev r.toggles })
add_typed type_named_switch d r =
    stored (built (λ n. new_input (named_switch d.gvl_name) d.name (room_name d.room)) (some 0))
      λ dev. record r { named_switches = insert d.gvl_name dev r.named_switches }
add_typed type_door_sensor d r =
    stored (built (λ n. new_input (door_sensor n) d.name (room_name d.room)) d.channel_or_index)
      λ dev. record r { door_sensors = put_at (key d.channel_or_index) dev r.door_sensors }
add_typed type_window_sensor d r =
    stored (built (λ n. new_input (window_sensor n) d.name (room_name d.room)) d.channel_or_index)
      λ dev. record r { window_sensors = put_at (key d.channel_or_index) dev r.window_sensors }
add_typed type_motion_sensor d r =
    stored (built (λ n. new_input (motion_sensor n) d.name (room_name d.room)) d.channel_or_index)
      λ dev. record r { motion_sensors = put_at (key d.channel_or_index) dev r.motion_sensors }
add_typed type_custom d r = some r

-- A scheme takes priority over the type.
unfoldable pub add_row : Format → Row → Option Scheme → Registry → Option Registry
unfolding add_typed new_templated
add_row format d none r = add_typed d.device_type d r
add_row format d (some s) r =
    stored (new_templated format d s) λ dev. record r { templated = put_at d.pk dev r.templated }

-- `_load_devices_from_db`: an exception of a row leaves the loop, and the rows before it loaded.
unfoldable pub load_rows : Format → List Row → Registry → Bool × Registry
load_rows format [] r = (true, r)
load_rows format (d ∷ rows) r = elim (add_row format d d.address_scheme r) [
  | none ↦ (false, r)
  | some r1 ↦ load_rows format rows r1
]

-- The dicts that `refresh_devices` clears.
unfoldable pub cleared : Registry → Registry
cleared r = record r {
  dali = [];
  relays = [];
  switches = [];
  curtains = [];
  appliances = [];
  toggles = [];
  named_switches = [];
  door_sensors = [];
  window_sensors = [];
  motion_sensors = [];
  templated = [];
}

-- `refresh_devices`; without a row for the apartment nothing is loaded.
unfoldable pub refresh_devices : Format → Option (List Row) → Registry → Bool × Registry
unfolding cleared
refresh_devices format none r = (true, cleared r)
refresh_devices format (some rows) r = load_rows format rows (cleared r)
