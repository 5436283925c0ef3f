-- ===== src/Ads/State.antt =====
-- find_device/plc/ads_client.py: the fields of `class ADSClient`, and the interface of pyads and of
-- the operating system that its methods call. Times are in milliseconds.
use phone_app.Base.{
  ℕ, ◌+◌, Bool, true, false, ◌||◌, Option, none, some, List, [], ◌∷◌, Text, take, ◌==◌,
  if◌then◌else◌,
}
use phone_app.Base.Int.{ℤ}

-- The `pyads.PLCTYPE_*` constants.
pub data PlcType : Type 0 where
  plc_bool plc_byte plc_int plc_uint plc_dint plc_udint plc_sint plc_usint : PlcType
  plc_word plc_dword plc_lint plc_ulint plc_real plc_lreal plc_string plc_wstring : PlcType

-- What a variable of the PLC holds, as far as the device classes use it.
pub data Value : Type 0 where
  bool : Bool → Value
  num : ℤ → Value

-- `pyads.ADSError` with its `err_code`, or any other exception, each with its `str(exc)`.
pub data Exception : Type 0 where
  ads_error : Option ℕ → Text → Exception
  other : Text → Exception

abbrev pub message : Exception → Text
message (ads_error _ m) = m
message (other m) = m

pub data Outcome (A : Type 0) : Type 0 where
  value : A → Outcome A
  exception : Exception → Outcome A

-- A connection object of pyads.
abbrev pub Conn : Type 0
Conn = ℕ

-- pyads, the clock and the environment, over the state `W` of the world outside the process.
pub record Pyads (W : Type 0) : Type 0 where
  pub monotonic : W → ℕ
  pub sleep : ℕ → W → W
  pub getenv : Text → W → Text
  pub open_conn : Text → ℕ → Text → W → Outcome Conn × W
  pub read_state : Conn → W → Outcome (ℕ × ℕ) × W
  pub close : Conn → W → W
  pub read_by_name : Conn → Text → PlcType → W → Outcome Value × W
  pub write_by_name : Conn → Text → Value → PlcType → W → Outcome Unit × W
  pub read_list_by_name : Conn → List (Text × PlcType) → W → Outcome (List (Text × Value)) × W
  pub write_list_by_name : Conn → List (Text × Value) → W → Outcome Unit × W
  pub get_handle : Conn → Text → W → Outcome ℕ × W
  pub release_handle : Conn → ℕ → W → W
  pub read_handle : Conn → ℕ → PlcType → W → Outcome Value × W
  pub write_handle : Conn → ℕ → Value → PlcType → W → Outcome Unit × W
  pub add_route_to_plc : Text → Text → Text → Text → Text → W → Outcome Unit × W

pub record AdsClient : Type 0 where
  pub netid : Text
  pub ip : Text
  pub mock : Bool
  pub ads_port : ℕ
  pub conn : Option Conn
  pub connected : Bool
  pub connected_since : Option ℕ
  pub read_count : ℕ
  pub write_count : ℕ
  pub error_count : ℕ
  pub reconnect_count : ℕ
  pub latency_samples : List ℕ
  pub last_error : Option Text
  pub last_error_time : Option ℕ
  -- Is the background thread alive, and is its stop event set?
  pub reconnect_alive : Bool
  pub stop_requested : Bool
  pub handle_cache : List (Text × ℕ)
  pub last_connect_exc : Option Exception
  pub last_route_repair_attempt : ℕ

-- `pyads.PORT_TC3PLC1`
abbrev default_port : ℕ
default_port = 851

abbrev port_or_default : Option ℕ → ℕ
port_or_default none = default_port
port_or_default (some p) = p

-- `ADSClient.__init__`
unfoldable pub new_client : Text → Text → Bool → Option ℕ → AdsClient
new_client netid ip mock ads_port = record {
  netid = netid;
  ip = ip;
  mock = mock;
  ads_port = port_or_default ads_port;
  conn = none;
  connected = false;
  connected_since = none;
  read_count = 0;
  write_count = 0;
  error_count = 0;
  reconnect_count = 0;
  latency_samples = [];
  last_error = none;
  last_error_time = none;
  reconnect_alive = false;
  stop_requested = false;
  handle_cache = [];
  last_connect_exc = none;
  last_route_repair_attempt = 0;
}

-- The exceptions that leave a method of the program.
pub data Error : Type 0 where
  runtime_error : Error
  connection_error : Text → Error
  value_error : Error

pub data Result (A : Type 0) : Type 0 where
  ok : A → Result A
  err : Error → Result A

-- `deque(maxlen=50).append`, the newest sample first.
unfoldable pub add_sample : ℕ → List ℕ → List ℕ
add_sample ms samples = take 50 (ms ∷ samples)

-- `_record_error`
unfoldable pub record_error : Text → ℕ → AdsClient → AdsClient
record_error msg now c = record c {
  error_count = c.error_count + 1;
  last_error = some msg;
  last_error_time = some now;
}

-- `_launch_reconnect_thread`
unfoldable pub launch_reconnect_thread : AdsClient → AdsClient
launch_reconnect_thread c =
    if c.reconnect_alive then c else record c { reconnect_alive = true; stop_requested = false }

-- `_mark_disconnected_and_reconnect`
unfoldable pub mark_disconnected_and_reconnect : Text → ℕ → AdsClient → AdsClient
unfolding record_error launch_reconnect_thread
mark_disconnected_and_reconnect reason now c =
    launch_reconnect_thread (record_error reason now (record c { connected = false }))

-- `_ensure_connected`: never blocks, and starts the background thread where the connection is down.
unfoldable pub ensure_connected : AdsClient → Bool × AdsClient
unfolding launch_reconnect_thread
ensure_connected c = if c.connected then (true, c) else (false, launch_reconnect_thread c)

-- `_is_symbol_error`, with `_SYMBOL_ERROR_CODES`.
unfoldable pub is_symbol_error : Exception → Bool
is_symbol_error (ads_error (some code) _) = code == 1808 || code == 1809
is_symbol_error (ads_error none _) = false
is_symbol_error (other _) = false

-- What an `except` block does to the client: a symbol error leaves the connection alone.
unfoldable pub on_exception : Exception → ℕ → AdsClient → AdsClient
unfolding is_symbol_error mark_disconnected_and_reconnect
on_exception e now c =
    if is_symbol_error e then c else mark_disconnected_and_reconnect (message e) now c

-- A method of the client: an exception leaves the state as far as it was written.
abbrev pub M : Type 0 → Type 0 → Type 0
M W A = AdsClient → W → Result A × AdsClient × W

module _ {W A : Type 0} where
  abbrev pub pure : A → M W A
  pure a c w = (ok a, c, w)

  abbrev pub raise : Error → M W A
  raise e c w = (err e, c, w)

infixl 5 ◌>>=◌ ◌>>◌
abbrev pub ◌>>=◌ : {W A B : Type 0} → M W A → (A → M W B) → M W B
◌>>=◌ m f c w = let (r, c', w') = m c w in elim r [ ok a ↦ f a c' w' | err e ↦ (err e, c', w') ]

abbrev pub ◌>>◌ : {W A B : Type 0} → M W A → M W B → M W B
m >> k = m >>= λ _. k
