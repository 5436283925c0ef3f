-- ===== src/Tests/Plc.antt =====
-- A small PLC with a clock, variables that keep what is written, and an address that may not answer.
use phone_app.Base.{
  ℕ, ◌+◌, ◌≡◌, inl, inr, refl, Bool, true, false, Option, none, some, [], arith, if◌then◌else◌,
  Bool-cases, Text, codes, eqb,
}
use phone_app.Ads.State.{
  Value, bool, Outcome, value, exception, Exception, ads_error, other, Pyads, AdsClient, new_client,
}
use phone_app.Devices.Memory.{Memory}

pub record World : Type 0 where
  pub clock : ℕ
  pub reachable : Bool
  -- The variable whose writes are refused, where there is one.
  pub refused : Text
  pub vars : Text → Option Value

abbrev pub no_answer : Exception
no_answer = other (codes "timeout")

abbrev pub no_symbol : Exception
no_symbol = ads_error (some 1808) (codes "symbol not found")

abbrev found : Option Value → Outcome Value
found none = exception no_symbol
found (some v) = value v

abbrev accept : Text → Value → World → Outcome Unit × World
accept v x w =
    if eqb v w.refused
    then (exception no_answer, w)
    else (value tt, record w { vars = λ u. if eqb v u then some x else w.vars u })

abbrev pub plc : Pyads World
plc = record {
  monotonic = λ w. w.clock;
  sleep = λ ms w. record w { clock = w.clock + ms };
  getenv = λ name w. [];
  open_conn = λ netid port ip w. ((if w.reachable then value 7 else exception no_answer), w);
  read_state = λ k w. (value (5, 0), w);
  close = λ k w. w;
  read_by_name = λ k v t w. ((if w.reachable then found (w.vars v) else exception no_answer), w);
  write_by_name = λ k v x t w. accept v x w;
  read_list_by_name = λ k vs w. (value [], w);
  write_list_by_name = λ k vs w. (value tt, w);
  get_handle = λ k v w. (value 42, w);
  release_handle = λ k h w. w;
  read_handle = λ k h t w. (value (bool true), w);
  write_handle = λ k h x t w. (value tt, w);
  add_route_to_plc = λ ip name user password netid w. (value tt, w);
}

pub accept-written :
    (v : Text) (x : Value) (w w' : World) (u : Text)
    → accept v x w ≡ (value tt, w')
    → w'.vars u ≡ (if eqb v u then some x else w.vars u)
accept-written v x w w' u e = elim (Bool-cases (eqb v w.refused)) [
  | inl h ↦ ground arith
  | inr h ↦ ground arith
]

abbrev pub memory : Memory plc
memory = record {
  store = λ w. w.vars;
  written = λ k v x t w w' u e. accept-written v x w w' u e;
  slept = λ ms w u. refl;
}

abbrev pub world : World
world = record {
  clock = 700_000;
  reachable = true;
  refused = codes "none";
  vars = λ u. if eqb u (codes "lamp") then some (bool true) else none;
}

abbrev pub dark_world : World
dark_world = record world { reachable = false }

abbrev pub fresh : AdsClient
fresh = new_client (codes "5.1.2.3.1.1") (codes "10.0.0.2") false none

abbrev pub online : AdsClient
online = record fresh { conn = some 7; connected = true; connected_since = some 0 }

abbrev pub mock_client : AdsClient
mock_client = record fresh { mock = true; connected = true }
