-- ===== src/Registry/Poll.antt =====
-- find_device/plc/registry.py: `_batch_read_group`, `_read_group` and `read_full_state`, the state that
-- the app polls.
use phone_app.Base.{
  ℕ, Bool, true, false, not, ◌&&◌, Option, none, some, List, [], ◌∷◌, if◌then◌else◌, Text,
}
use phone_app.Base.{lookup, insert}
use phone_app.Ads.State.{Value, PlcType, plc_bool, plc_byte, Pyads, AdsClient, Result, ok, err, M}
use phone_app.Ads.Io.{read_batch}
use phone_app.Devices.Wire.{truthy}
use phone_app.Devices.Dali.{DaliChannel, var_actual, decode_level, read_actual_level}
use phone_app.Devices.Relays.{
  WallRelay, relay_var_state, read_relay, read_named, read_appliance, read_templated,
}
use phone_app.Devices.Curtain.{read_curtain}
use phone_app.Devices.Inputs.{read_input, Security, SecurityState, read_security}
use phone_app.Modbus.{Pymodbus}
use phone_app.Registry.{Registry}
use phone_app.Registry.Fallback.{Readings, is_ready, fill_dali_gaps, fill_relay_gaps}

-- A device as `_batch_read_group` uses it: `batch_var`, `batch_plctype`, `decode_batch`, and its own
-- read for mock mode.
pub record Batched (W A : Type 0) : Type 0 where
  pub batch_var : Text
  pub batch_plctype : PlcType
  pub decode_batch : Value → A
  pub read_alone : M W A

abbrev pub as_reading : {A : Type 0} → Result A → Option A
as_reading (ok a) = some a
as_reading (err e) = none

abbrev pub decoded : {A : Type 0} → (Value → A) → Option Value → Option A
decoded f none = none
decoded f (some v) = some (f v)

module _ {W : Type 0} (p : Pyads W) where
  -- The reads in mock mode.
  unfoldable pub read_each :
      {A : Type 0} → List (ℕ × Batched W A) → AdsClient → W → Readings A × AdsClient × W
  read_each [] c w = ([], c, w)
  read_each ((k, dev) ∷ rest) c w =
      let (x, d, u) = dev.read_alone c w in
      let (out, e, v) = read_each rest d u in ((k, as_reading x) ∷ out, e, v)

  -- The dict of types, begun with what the devices before have put there.
  unfoldable pub type_map :
      {A : Type 0} → List (ℕ × Batched W A) → List (Text × PlcType) → List (Text × PlcType)
  type_map [] types = types
  type_map ((k, dev) ∷ rest) types = type_map rest (insert dev.batch_var dev.batch_plctype types)

  unfoldable pub decode_each :
      {A : Type 0} → List (Text × Value) → List (ℕ × Batched W A) → Readings A
  decode_each raw [] = []
  decode_each raw ((k, dev) ∷ rest) =
      (k, decoded dev.decode_batch (lookup dev.batch_var raw)) ∷ decode_each raw rest

  -- `_batch_read_group` where there are devices.
  unfoldable pub read_some :
      {A : Type 0} → List (ℕ × Batched W A) → AdsClient → W → Readings A × AdsClient × W
  read_some devices c w =
      if c.mock
      then read_each devices c w
      else let (raw, d, u) = read_batch p (type_map devices []) c w in
        (decode_each raw devices, d, u)

  unfoldable pub batch_read_group :
      {A : Type 0} → List (ℕ × Batched W A) → AdsClient → W → Readings A × AdsClient × W
  batch_read_group [] c w = ([], c, w)
  batch_read_group (dev ∷ rest) c w = read_some (dev ∷ rest) c w

  -- `_read_group`, with `plc_down` before and after it. Only an exception asks for the connection again.
  unfoldable pub read_group :
      {K A : Type 0}
      → List (K × M W A)
      → Bool
      → AdsClient
      → W
      → List (K × Option A) × Bool × AdsClient × W
  read_group [] down c w = ([], down, c, w)
  read_group ((k, dev) ∷ rest) true c w =
      let (out, down, d, u) = read_group rest true c w in ((k, none) ∷ out, down, d, u)
  read_group ((k, dev) ∷ rest) false c w = elim (dev c w).0 [
    | ok a ↦
        let (out, down, e, v) = read_group rest false (dev c w).1 (dev c w).2 in
        ((k, some a) ∷ out, down, e, v)
    | err _ ↦
        let d = (dev c w).1 in
        let (out, down, e, v) = read_group rest (not d.mock && not d.connected) d (dev c w).2 in
        ((k, none) ∷ out, down, e, v)
  ]

-- What `_read_group` answers for the devices that are read one by one.
pub record Singles : Type 0 where
  pub curtains : Readings ℕ
  pub switches : Readings Bool
  pub door_sensors : Readings Bool
  pub window_sensors : Readings Bool
  pub motion_sensors : Readings Bool
  pub appliances : List (Text × Option Bool)
  pub toggles : List (Text × Option Bool)
  pub named_switches : List (Text × Option Bool)
  pub custom : Readings Value

-- The answer of a poll.
pub record FullState : Type 0 where
  pub mock : Bool
  pub apartment_id : ℕ
  pub plc_connected : Bool
  pub modbus_connected : Bool
  pub dali : Readings ℕ
  pub relays : Readings Bool
  pub singles : Singles
  pub security : Option SecurityState

-- The devices of a dict with one of their methods.
abbrev pub each : {K A B : Type 0} → (A → B) → List (K × A) → List (K × B)
each f [] = []
each f ((k, a) ∷ d) = (k, f a) ∷ each f d

abbrev pub keys : {K A : Type 0} → List (K × A) → List K
keys [] = []
keys ((k, a) ∷ d) = k ∷ keys d

module _ {W : Type 0} (p : Pyads W) (q : Pymodbus W) where
  abbrev pub dali_batch : DaliChannel → Batched W ℕ
  dali_batch d = record {
    batch_var = var_actual d;
    batch_plctype = plc_byte;
    decode_batch = decode_level;
    read_alone = read_actual_level p d;
  }

  abbrev pub relay_batch : WallRelay → Batched W Bool
  relay_batch d = record {
    batch_var = relay_var_state d;
    batch_plctype = plc_bool;
    decode_batch = truthy;
    read_alone = read_relay p d;
  }

  unfoldable pub read_security_of :
      Option Security → AdsClient → W → Option SecurityState × AdsClient × W
  read_security_of none c w = (none, c, w)
  read_security_of (some s) c w = let (x, d, u) = read_security p s c w in (as_reading x, d, u)

  -- The nine calls of `_read_group`, begun with `plc_down`.
  unfoldable pub read_singles : Registry → Bool → AdsClient → W → Singles × AdsClient × W
  read_singles r down0 c0 w0 =
      let (curtains, down1, c1, w1) = read_group p (each (read_curtain p) r.curtains) down0 c0 w0 in
      let (switches, down2, c2, w2) = read_group p (each (read_input p) r.switches) down1 c1 w1 in
      let (doors, down3, c3, w3) = read_group p (each (read_input p) r.door_sensors) down2 c2 w2 in
      let (windows, down4, c4, w4) =
        read_group p (each (read_input p) r.window_sensors) down3 c3 w3 in
      let (motions, down5, c5, w5) =
        read_group p (each (read_input p) r.motion_sensors) down4 c4 w4 in
      let (appliances, down6, c6, w6) =
        read_group p (each (read_appliance p) r.appliances) down5 c5 w5 in
      let (toggles, down7, c7, w7) = read_group p (each (read_named p) r.toggles) down6 c6 w6 in
      let (named, down8, c8, w8) =
        read_group p (each (read_input p) r.named_switches) down7 c7 w7 in
      let (custom, _, c9, w9) = read_group p (each (read_templated p) r.templated) down8 c8 w8 in
      (
        record {
          curtains = curtains;
          switches = switches;
          door_sensors = doors;
          window_sensors = windows;
          motion_sensors = motions;
          appliances = appliances;
          toggles = toggles;
          named_switches = named;
          custom = custom;
        },
        c9,
        w9,
      )

  -- `read_full_state`
  unfoldable pub read_full_state : Registry → W → FullState × Registry × W
  read_full_state r w0 =
      let (levels, c1, w1) = batch_read_group p (each dali_batch r.dali) r.client w0 in
      let (dali, m1, w2) = fill_dali_gaps q (keys r.dali) levels r.modbus w1 in
      let (states, c2, w3) = batch_read_group p (each relay_batch r.relays) c1 w2 in
      let (relays, m2, w4) = fill_relay_gaps q (keys r.relays) states m1 w3 in
      let (singles, c3, w5) = read_singles r (not c2.mock && not c2.connected) c2 w4 in
      let (security, c4, w6) = read_security_of r.security c3 w5 in
      (
        record {
          mock = c4.mock;
          apartment_id = r.apartment_id;
          plc_connected = c4.connected;
          modbus_connected = is_ready m2;
          dali = dali;
          relays = relays;
          singles = singles;
          security = security;
        },
        record r { client = c4; modbus = m2 },
        w6,
      )
