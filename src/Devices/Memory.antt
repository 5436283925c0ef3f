-- ===== src/Devices/Memory.antt =====
-- The command variables of a PLC as a memory: what pyads promises of a write that it accepts.
use phone_app.Base.{
  ℕ, ◌≡◌, inl, inr, true, false, Option, some, arith, if◌then◌else◌, Option-cases, Text, eqb,
}
use phone_app.Ads.State.{
  Value, bool, PlcType, plc_bool, Conn, value, Pyads, AdsClient, ok, on_exception, ensure_connected,
  mark_disconnected_and_reconnect, launch_reconnect_thread, record_error,
}
use phone_app.Ads.Io.{write, guarded_write, finish_write, count_writes}
use phone_app.Devices.Wire.{pulse}

-- Only this program writes the command variables, a write that pyads accepts sets the named variable
-- and no other, and they keep their values while time passes.
pub record Memory {W : Type 0} (p : Pyads W) : Type 0 where
  pub store : W → Text → Option Value
  pub written :
      (k : Conn) (v : Text) (x : Value) (t : PlcType) (w w' : W) (u : Text)
      → p.write_by_name k v x t w ≡ (value tt, w')
      → store w' u ≡ (if eqb v u then some x else store w u)
  pub slept : (ms : ℕ) (w : W) (u : Text) → store (p.sleep ms w) u ≡ store w u

module _ {W : Type 0} (p : Pyads W) (m : Memory p) where
  open m use {store, written, slept}

  -- No write turns a real client into a mock client, or back.
  pub write_real :
      (v : Text) (x : Value) (t : PlcType) (c : AdsClient) (w : W)
      → (write p v x t c w).1.mock ≡ c.mock
  unfolding write guarded_write finish_write count_writes on_exception ensure_connected
      mark_disconnected_and_reconnect launch_reconnect_thread record_error
  write_real v x t c w = ground arith

  -- A write of a real client that returns has stored its value, and nothing else.
  pub write_stores :
      (v : Text) (x : Value) (t : PlcType) (c d : AdsClient) (w w' : W) (u : Text)
      → c.mock ≡ false
      → write p v x t c w ≡ (ok tt, d, w')
      → store w' u ≡ (if eqb v u then some x else store w u)
  unfolding write guarded_write ensure_connected finish_write
  write_stores v x t c d w w' u real e = elim (Option-cases c.conn) [
    | inl nothing ↦ ground arith
    | inr (k, has) ↦ ground (arith, written k v x t w w' u)
  ]

  -- After an accepted pulse the pin is false again, and no other variable has changed.
  pub pulse_stores :
      (v : Text) (c d : AdsClient) (w w' : W) (u : Text)
      → c.mock ≡ false
      → pulse p v c w ≡ (ok tt, d, w')
      → store w' u ≡ (if eqb v u then some (bool false) else store w u)
  unfolding pulse
  pulse_stores v c d w w' u real e =
      let (r1, c1, w1) = write p v (bool true) plc_bool c w in
      let w2 = p.sleep 50 w1 in
      ground (
        arith,
        write_real v (bool true) plc_bool c w,
        write_stores v (bool true) plc_bool c c1 w w1 u,
        slept 50 w1 u,
        write_stores v (bool false) plc_bool c1 d w2 w' u,
      )
