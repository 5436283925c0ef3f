-- ===== src/Registry/Groups.antt =====
-- A poll of a PLC that is down, and one of a PLC on which single symbols are missing.
use phone_app.Devices.Relays.{read_templated, read_named, read_appliance}
use phone_app.Devices.Curtain.{read_curtain}
use phone_app.Registry.Fallback.{fill_relay_gaps, fill_dali_gaps}
use phone_app.Base.{
  ℕ, ◌≡◌, refl, ap, Bool, true, false, Option, none, some, List, [], ◌∷◌, arith, Text,
}
use phone_app.Ads.State.{
  PlcType, plc_bool, Value, Outcome, value, exception, Pyads, AdsClient, M, ensure_connected,
  launch_reconnect_thread, is_symbol_error, on_exception,
}
use phone_app.Ads.Io.{read, read_batch, guarded_read, finish_read, count_reads}
use phone_app.Devices.Wire.{truthy, read_bool}
use phone_app.Devices.Inputs.{input_var, InputDevice, read_input, read_security, Security}
use phone_app.Modbus.{Pymodbus}
use phone_app.Registry.{Registry}
use phone_app.Registry.Poll.{
  read_singles, Singles, as_reading, decode_each, read_some, batch_read_group, Batched, read_group,
  FullState, each, dali_batch, relay_batch, read_security_of, read_full_state,
}

-- A reading of None for every device.
abbrev pub nothing : {K A B : Type 0} → List (K × B) → List (K × Option A)
nothing [] = []
nothing ((k, b) ∷ d) = (k, none) ∷ nothing d

module _ {W : Type 0} (p : Pyads W) where
  read_group-down :
      {K A : Type 0} (devices : List (K × M W A)) (c : AdsClient) (w : W)
      → read_group p devices true c w ≡ (nothing devices, true, c, w)
  unfolding read_group
  read_group-down [] c w = refl
  read_group-down ((k, dev) ∷ rest) c w = ground (arith, read_group-down rest c w)

  nothing-each :
      {K A B C : Type 0} (f : B → C) (d : List (K × B)) → nothing {A = A} (each f d) ≡ nothing d
  nothing-each f [] = refl
  nothing-each f ((k, b) ∷ d) = ap (λ x. (k, none) ∷ x) (nothing-each f d)

  decode_each-nothing :
      {A : Type 0} (devices : List (ℕ × Batched W A)) → decode_each p [] devices ≡ nothing devices
  unfolding decode_each
  decode_each-nothing [] = refl
  decode_each-nothing ((k, dev) ∷ rest) = ap (λ x. (k, none) ∷ x) (decode_each-nothing rest)

  read_some-down :
      {A : Type 0} (devices : List (ℕ × Batched W A)) (c : AdsClient) (w : W)
      → c.mock ≡ false
      → c.connected ≡ false
      → read_some p devices c w ≡ (nothing devices, launch_reconnect_thread c, w)
  unfolding read_some read_batch ensure_connected
  read_some-down devices c w real down = ground (arith, decode_each-nothing devices)

  abbrev pub IsDown : AdsClient → Type 0
  IsDown c = (c.mock ≡ false) × (c.connected ≡ false)

  batch-IsDown :
      {A : Type 0} (devices : List (ℕ × Batched W A)) (c : AdsClient) (w : W)
      → IsDown c
      → let (out, d, u) = batch_read_group p devices c w in
        (out ≡ nothing devices) × IsDown d × (u ≡ w)
  unfolding batch_read_group launch_reconnect_thread
  batch-IsDown [] c w h = (refl, h, refl)
  batch-IsDown (dev ∷ rest) c w h = ground (arith, read_some-down (dev ∷ rest) c w)

module _ {W : Type 0} (p : Pyads W) (q : Pymodbus W) where
  security-IsDown :
      (s : Option Security) (c : AdsClient) (w : W)
      → IsDown p c
      → let (x, d, u) = read_security_of p q s c w in (x ≡ none) × IsDown p d × (u ≡ w)
  unfolding read_security_of read_security read_bool read guarded_read ensure_connected
      launch_reconnect_thread
  security-IsDown none c w h = (refl, h, refl)
  security-IsDown (some s) c w h = ground arith

  abbrev pub no_singles : Registry → Singles
  no_singles r = record {
    curtains = nothing r.curtains;
    switches = nothing r.switches;
    door_sensors = nothing r.door_sensors;
    window_sensors = nothing r.window_sensors;
    motion_sensors = nothing r.motion_sensors;
    appliances = nothing r.appliances;
    toggles = nothing r.toggles;
    named_switches = nothing r.named_switches;
    custom = nothing r.templated;
  }

  singles-down :
      (r : Registry) (c : AdsClient) (w : W) → read_singles p q r true c w ≡ (no_singles r, c, w)
  unfolding read_singles
  singles-down r c w = rw (
    read_group-down p (each (read_curtain p) r.curtains) c w,
    read_group-down p (each (read_input p) r.switches) c w,
    read_group-down p (each (read_input p) r.door_sensors) c w,
    read_group-down p (each (read_input p) r.window_sensors) c w,
    read_group-down p (each (read_input p) r.motion_sensors) c w,
    read_group-down p (each (read_appliance p) r.appliances) c w,
    read_group-down p (each (read_named p) r.toggles) c w,
    read_group-down p (each (read_input p) r.named_switches) c w,
    read_group-down p (each (read_templated p) r.templated) c w,
    nothing-each p {A = ℕ} (read_curtain p) r.curtains,
    nothing-each p {A = Bool} (read_input p) r.switches,
    nothing-each p {A = Bool} (read_input p) r.door_sensors,
    nothing-each p {A = Bool} (read_input p) r.window_sensors,
    nothing-each p {A = Bool} (read_input p) r.motion_sensors,
    nothing-each p {A = Bool} (read_appliance p) r.appliances,
    nothing-each p {A = Bool} (read_named p) r.toggles,
    nothing-each p {A = Bool} (read_input p) r.named_switches,
    nothing-each p {A = Value} (read_templated p) r.templated,
  )

  -- What a poll answers when the PLC is down: no reading of any device.
  abbrev pub IsBlank : Registry → FullState → Type 0
  IsBlank r f =
      (f.plc_connected ≡ false)
      × (f.dali ≡ nothing r.dali)
      × (f.relays ≡ nothing r.relays)
      × (f.singles ≡ no_singles r)
      × (f.security ≡ none)

  -- A poll of a registry whose real client is disconnected, and that has no Modbus client, answers with
  -- None for each of its devices, and does not touch the PLC.
  pub read_full_state-IsBlank :
      (r : Registry) (w : W)
      → r.client.mock ≡ false
      → r.client.connected ≡ false
      → r.modbus ≡ none
      → let (f, _, u) = read_full_state p q r w in IsBlank r f × (u ≡ w)
  unfolding read_full_state fill_dali_gaps fill_relay_gaps
  read_full_state-IsBlank r w real down absent =
      let (levels, c1, w1) = batch_read_group p (each (dali_batch p q) r.dali) r.client w in
      let (states, c2, w2) = batch_read_group p (each (relay_batch p q) r.relays) c1 w1 in
      ground (
        arith,
        batch-IsDown p (each (dali_batch p q) r.dali) r.client w,
        batch-IsDown p (each (relay_batch p q) r.relays) c1 w1,
        nothing-each p {A = ℕ} (dali_batch p q) r.dali,
        nothing-each p {A = Bool} (relay_batch p q) r.relays,
        singles-down r c2 w2,
        security-IsDown r.security c2 w2,
      )

-- The answers of a PLC that is up: a value, or an error that says that the symbol does not exist.
abbrev pub is_answer : Outcome Value → Bool
is_answer (value v) = true
is_answer (exception e) = is_symbol_error e

abbrev pub input_answer : Outcome Value → Option Bool
input_answer (value v) = some (truthy v)
input_answer (exception e) = none

module _ {W : Type 0} (p : Pyads W) (k : ℕ) (w : W) where
  abbrev pub IsUp : AdsClient → Type 0
  IsUp c = (c.mock ≡ false) × (c.connected ≡ true) × (c.conn ≡ some k)

  -- What the PLC holds for each input.
  abbrev pub input_answers : {K : Type 0} → List (K × InputDevice) → List (K × Option Bool)
  input_answers [] = []
  input_answers ((j, d) ∷ rest) =
      (j, input_answer (p.read_by_name k (input_var d.kind) plc_bool w).0) ∷ input_answers rest

  input-IsUp :
      (d : InputDevice) (c : AdsClient) (o : Outcome Value)
      → IsUp c
      → p.read_by_name k (input_var d.kind) plc_bool w ≡ (o, w)
      → is_answer o ≡ true
      → let (x, e, u) = read_input p d c w in (as_reading x ≡ input_answer o) × IsUp e × (u ≡ w)
  unfolding read_input read_bool read guarded_read ensure_connected finish_read count_reads
      on_exception
  input-IsUp d c (value v) (real, up, conn) answers fine = ground arith
  input-IsUp d c (exception e) (real, up, conn) answers fine = ground arith

  -- On a PLC that answers every read with a value or with the error of a missing symbol, and is not
  -- changed by reads, a group of inputs is read completely: each device whose symbol is there has its
  -- value, whatever devices before it are missing.
  pub read_group-input_answers :
      {K : Type 0} (ds : List (K × InputDevice)) (c : AdsClient)
      → ((v : Text) (t : PlcType) → is_answer (p.read_by_name k v t w).0 ≡ true)
      → ((v : Text) (t : PlcType) → (p.read_by_name k v t w).1 ≡ w)
      → c.mock ≡ false
      → c.connected ≡ true
      → c.conn ≡ some k
      → (read_group p (each (read_input p) ds) false c w).0 ≡ input_answers ds
  unfolding read_group
  read_group-input_answers [] c fine still real up conn = refl
  read_group-input_answers ((j, d) ∷ rest) c fine still real up conn =
      let (x, e, u) = read_input p d c w in
      ground (
        arith,
        fine (input_var d.kind) plc_bool,
        still (input_var d.kind) plc_bool,
        input-IsUp d c (p.read_by_name k (input_var d.kind) plc_bool w).0,
        read_group-input_answers rest e fine still,
      )
