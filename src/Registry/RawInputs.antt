-- ===== src/Registry/RawInputs.antt =====
-- find_device/plc/registry.py: `read_raw_inputs`, every physical input whether it has a row or not.
use phone_app.Base.{
  ℕ, zero, suc, ◌+◌, ◌≡◌, refl, true, false, Option, none, some, List, [], ◌∷◌, arith,
  if◌then◌else◌, Text,
}
use phone_app.Base.{lookup}
use phone_app.Ads.State.{
  Value, bool, Exception, Outcome, value, exception, PlcType, plc_bool, Pyads, AdsClient,
  is_symbol_error, on_exception, ensure_connected,
}
use phone_app.Ads.Io.{read, read_batch, finish_batch, guarded_read, finish_read, count_reads}
use phone_app.Devices.Inputs.{
  InputKind, switch_input, motion_sensor, door_sensor, window_sensor, input_var,
}
use phone_app.Registry.Poll.{as_reading}
use phone_app.Registry.Groups.{is_answer}

-- `range(1, n + 1)`, begun at `i`.
abbrev pub range_from : ℕ → ℕ → List ℕ
range_from i zero = []
range_from i (suc n) = i ∷ range_from (i + 1) n

abbrev pub raw_switch_indices : List ℕ
raw_switch_indices = range_from 1 48

abbrev pub raw_motion_sensor_indices : List ℕ
raw_motion_sensor_indices = range_from 1 8

abbrev pub raw_door_sensor_indices : List ℕ
raw_door_sensor_indices = range_from 1 16

abbrev pub raw_window_sensor_indices : List ℕ
raw_window_sensor_indices = range_from 1 16

abbrev pub RawInputs : Type 0
RawInputs = List (ℕ × Option Value)

-- The dict of types of a group, and its readings from the dict of a batch.
abbrev pub group_map : (ℕ → InputKind) → List ℕ → List (Text × PlcType)
group_map kind [] = []
group_map kind (i ∷ is) = (input_var (kind i), plc_bool) ∷ group_map kind is

abbrev pub from_batch : (ℕ → InputKind) → List (Text × Value) → List ℕ → RawInputs
from_batch kind raw [] = []
from_batch kind raw (i ∷ is) = (i, lookup (input_var (kind i)) raw) ∷ from_batch kind raw is

abbrev pub all_false : List ℕ → RawInputs
all_false [] = []
all_false (i ∷ is) = (i, some (bool false)) ∷ all_false is

module _ {W : Type 0} (p : Pyads W) where
  -- One read for each index, after a batch that read nothing.
  unfoldable pub read_singly : (ℕ → InputKind) → List ℕ → AdsClient → W → RawInputs × AdsClient × W
  read_singly kind [] c w = ([], c, w)
  read_singly kind (i ∷ is) c w =
      let (x, d, u) = read p (input_var (kind i)) plc_bool c w in
      let (out, e, v) = read_singly kind is d u in ((i, as_reading x) ∷ out, e, v)

  unfoldable pub from_batch_or_singly :
      (ℕ → InputKind) → List ℕ → List (Text × Value) × AdsClient × W → RawInputs × AdsClient × W
  unfolding read_singly
  from_batch_or_singly kind is ([], c, w) = read_singly kind is c w
  from_batch_or_singly kind is (x ∷ raw, c, w) = (from_batch kind (x ∷ raw) is, c, w)

  -- One group; in mock mode all inputs are False.
  unfoldable pub read_raw_group :
      (ℕ → InputKind) → List ℕ → AdsClient → W → RawInputs × AdsClient × W
  unfolding from_batch_or_singly
  read_raw_group kind is c w =
      if c.mock
      then (all_false is, c, w)
      else from_batch_or_singly kind is (read_batch p (group_map kind is) c w)

  -- `read_raw_inputs` of a registry that has started: switches, motion, door and window sensors.
  unfoldable pub read_raw_inputs :
      AdsClient → W → (RawInputs × RawInputs × RawInputs × RawInputs) × AdsClient × W
  unfolding read_raw_group
  read_raw_inputs c0 w0 =
      let (switches, c1, w1) = read_raw_group switch_input raw_switch_indices c0 w0 in
      let (motions, c2, w2) = read_raw_group motion_sensor raw_motion_sensor_indices c1 w1 in
      let (doors, c3, w3) = read_raw_group door_sensor raw_door_sensor_indices c2 w2 in
      let (windows, c4, w4) = read_raw_group window_sensor raw_window_sensor_indices c3 w3 in
      ((switches, motions, doors, windows), c4, w4)

abbrev pub raw_answer : Outcome Value → Option Value
raw_answer (value v) = some v
raw_answer (exception e) = none

module _ {W : Type 0} (p : Pyads W) (k : ℕ) (w : W) where
  abbrev pub raw_answers : (ℕ → InputKind) → List ℕ → RawInputs
  raw_answers kind [] = []
  raw_answers kind (i ∷ is) =
      (i, raw_answer (p.read_by_name k (input_var (kind i)) plc_bool w).0) ∷ raw_answers kind is

  abbrev IsOpen : AdsClient → Type 0
  IsOpen c = (c.mock ≡ false) × (c.connected ≡ true) × (c.conn ≡ some k)

  raw-IsOpen :
      (var : Text) (c : AdsClient) (o : Outcome Value)
      → IsOpen c
      → p.read_by_name k var plc_bool w ≡ (o, w)
      → is_answer o ≡ true
      → let (x, e, u) = read p var plc_bool c w in
        (as_reading x ≡ raw_answer o) × IsOpen e × (u ≡ w)
  unfolding read guarded_read ensure_connected finish_read count_reads on_exception
  raw-IsOpen var c (value v) (real, up, conn) answers fine = ground arith
  raw-IsOpen var c (exception e) (real, up, conn) answers fine = ground arith

  read_singly-raw_answers :
      (kind : ℕ → InputKind) (is : List ℕ) (c : AdsClient)
      → ((v : Text) (t : PlcType) → is_answer (p.read_by_name k v t w).0 ≡ true)
      → ((v : Text) (t : PlcType) → (p.read_by_name k v t w).1 ≡ w)
      → IsOpen c
      → (read_singly p kind is c w).0 ≡ raw_answers kind is
  unfolding read_singly
  read_singly-raw_answers kind [] c fine still up = refl
  read_singly-raw_answers kind (i ∷ is) c fine still up =
      let var = input_var (kind i) in
      let (x, e, u) = read p var plc_bool c w in
      ground (
        arith,
        fine var plc_bool,
        still var plc_bool,
        raw-IsOpen var c (p.read_by_name k var plc_bool w).0 up,
        read_singly-raw_answers kind is e fine still,
      )

  -- When the batch of a group fails because a symbol is missing, on a PLC that answers every single read
  -- with a value or with the error of a missing symbol and is not changed by reads, each input whose
  -- symbol is there has its value, and only the missing ones are None.
  pub read_raw_group-raw_answers :
      (kind : ℕ → InputKind) (is : List ℕ) (c : AdsClient) {e : Exception}
      → ((v : Text) (t : PlcType) → is_answer (p.read_by_name k v t w).0 ≡ true)
      → ((v : Text) (t : PlcType) → (p.read_by_name k v t w).1 ≡ w)
      → p.read_list_by_name k (group_map kind is) w ≡ (exception e, w)
      → is_symbol_error e ≡ true
      → c.mock ≡ false
      → c.connected ≡ true
      → c.conn ≡ some k
      → (read_raw_group p kind is c w).0 ≡ raw_answers kind is
  unfolding read_raw_group from_batch_or_singly read_batch finish_batch ensure_connected
      on_exception
  read_raw_group-raw_answers kind is c {e} fine still fails missing real up conn =
      let (raw, d, u) = read_batch p (group_map kind is) c w in
      ground (arith, read_singly-raw_answers kind is d fine still)
