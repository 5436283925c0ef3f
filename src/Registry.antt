-- ===== src/Registry.antt =====
-- find_device/plc/registry.py: `class DeviceRegistry`. This file has its fields and the lookups; the
-- modules below it have the loading of rows, the fallback to Modbus, the poll, fades and automations.
pub mod Loading
pub mod Rows
pub mod Fallback
pub mod Paths
pub mod Poll
pub mod Groups
pub mod Fades
pub mod FadeThreads
pub mod RawInputs
use phone_app.Base.{
  ℕ, zero, suc, ◌+◌, ◌-◌, ◌*◌, ◌≤◌, ◌<◌, ◌≡◌, ◌≢◌, ◌⊎◌, inl, inr, refl, sym, ap, ◌∙◌, Bool, true,
  false, not, ◌&&◌, ◌||◌, Option, none, some, List, [], ◌∷◌, ◌++◌, map, arith, tests, ltb, leb,
  ◌==◌, if◌then◌else◌, Bool-cases, Option-cases, Text, codes, eqb, length,
}
use phone_app.Base.{get_at, put_at}
use phone_app.Ads.State.{AdsClient, Result, ok, err, M}
use phone_app.Devices.Dali.{DaliChannel}
use phone_app.Devices.Relays.{WallRelay, NamedRelay, ApplianceRelay, TemplatedDevice}
use phone_app.Devices.Curtain.{CurtainMotor}
use phone_app.Devices.Inputs.{InputDevice, Security}
use phone_app.Modbus.{ModbusClient}

pub record Registry : Type 0 where
  pub apartment_id : ℕ
  pub client : AdsClient
  pub modbus : Option ModbusClient
  pub dali : List (ℕ × DaliChannel)
  pub relays : List (ℕ × WallRelay)
  pub switches : List (ℕ × InputDevice)
  pub curtains : List (ℕ × CurtainMotor)
  pub appliances : List (Text × ApplianceRelay)
  pub toggles : List (Text × NamedRelay)
  pub named_switches : List (Text × InputDevice)
  pub fade_generation : List (ℕ × ℕ)
  pub door_sensors : List (ℕ × InputDevice)
  pub window_sensors : List (ℕ × InputDevice)
  pub motion_sensors : List (ℕ × InputDevice)
  pub security : Option Security
  pub templated : List (ℕ × TemplatedDevice)

-- The dicts of `DeviceRegistry.__init__`.
unfoldable pub new_registry : ℕ → AdsClient → Option ModbusClient → Registry
new_registry apartment_id client modbus = record {
  apartment_id = apartment_id;
  client = client;
  modbus = modbus;
  dali = [];
  relays = [];
  switches = [];
  curtains = [];
  appliances = [];
  toggles = [];
  named_switches = [];
  fade_generation = [];
  door_sensors = [];
  window_sensors = [];
  motion_sensors = [];
  security = none;
  templated = [];
}

-- A method of the registry: an exception leaves the state as far as it was written.
abbrev pub Action : Type 0 → Type 0 → Type 0
Action W A = Registry → W → Result A × Registry × W

-- A method of a device, on the ADS client that the devices share.
abbrev pub on_ads : {W A : Type 0} → M W A → Action W A
on_ads m r w = let (x, c, u) = m r.client w in (x, record r { client = c }, u)
