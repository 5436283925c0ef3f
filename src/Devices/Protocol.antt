-- ===== src/Devices/Protocol.antt =====
-- What the commands of the output devices leave in the PLC's command variables.
use phone_app.Base.{
  decimal, eqb-append_left, eqb_refl, ℕ, ◌≤◌, ◌≡◌, refl, true, false, some, arith, ◌==◌, Text,
  codes, eqb,
}
use phone_app.Base.Int.{ℤ, pos}
use phone_app.Ads.State.{bool, num, plc_bool, plc_byte, Pyads, AdsClient, ok, err, Error}
use phone_app.Ads.Io.{write}
use phone_app.Devices.Levels.{pct_to_byte}
use phone_app.Devices.Dali.{DaliChannel, var_level, var_set_level, set_brightness, commit_level}
use phone_app.Devices.Curtain.{
  CurtainMotor, var_open_btn, var_close_btn, set_command, press, up, down,
}
use phone_app.Devices.Memory.{Memory, write_real, write_stores, pulse_stores}

-- The two variables of a channel differ: one is for levels, the other for commits.
level_ne_set_level : (d : DaliChannel) → eqb (var_set_level d) (var_level d) ≡ false
unfolding var_level var_set_level
level_ne_set_level d = refl

module _ {W : Type 0} (p : Pyads W) (m : Memory p) where
  open m use {store}

  -- When `set_brightness` returns on a real client, the channel's level variable holds the DALI level
  -- of the percentage, its commit pin is false again, ready for the next rising edge, and every
  -- other command variable is as before.
  pub set_brightness_stores :
      (d e : DaliChannel) (pct : ℤ) (c c' : AdsClient) (w w' : W) (u : Text)
      → c.mock ≡ false
      → set_brightness p d pct c w ≡ (ok e, c', w')
      → eqb (var_level d) u ≡ false
      → eqb (var_set_level d) u ≡ false
      → (store w' (var_level d) ≡ some (num (pos (pct_to_byte pct))))
        × (store w' (var_set_level d) ≡ some (bool false))
        × (store w' u ≡ store w u)
  unfolding set_brightness commit_level
  set_brightness_stores d e pct c c' w w' u real ran not_level not_pin =
      let x = num (pos (pct_to_byte pct)) in
      let (_, c1, w1) = write p (var_level d) x plc_byte c w in
      ground (
        arith,
        write_real p m (var_level d) x plc_byte c w,
        write_stores p m (var_level d) x plc_byte c c1 w w1 (var_level d),
        write_stores p m (var_level d) x plc_byte c c1 w w1 u,
        pulse_stores p m (var_set_level d) c1 c' w1 w' (var_level d),
        pulse_stores p m (var_set_level d) c1 c' w1 w' (var_set_level d),
        pulse_stores p m (var_set_level d) c1 c' w1 w' u,
        level_ne_set_level d,
        eqb_refl (var_level d),
        eqb_refl (var_set_level d),
      )

close_ne_open : (d : CurtainMotor) → eqb (var_close_btn d) (var_open_btn d) ≡ false
unfolding var_close_btn var_open_btn
close_ne_open d = eqb-append_left (decimal d.index) (codes "CloseBtn") (codes "OpenBtn")

open_ne_close : (d : CurtainMotor) → eqb (var_open_btn d) (var_close_btn d) ≡ false
unfolding var_close_btn var_open_btn
open_ne_close d = eqb-append_left (decimal d.index) (codes "OpenBtn") (codes "CloseBtn")

module _ {W : Type 0} (p : Pyads W) (m : Memory p) where
  open m use {store}

  -- When `set_command` returns on a real client, the command was stop, up or down, the open button
  -- is held exactly for up and the close button exactly for down, so never both.
  pub set_command_stores :
      (d e : CurtainMotor) (cmd : ℕ) (c c' : AdsClient) (w w' : W)
      → c.mock ≡ false
      → set_command p d cmd c w ≡ (ok e, c', w')
      → (cmd ≤ 2)
        × (store w' (var_open_btn d) ≡ some (bool (cmd == up)))
        × (store w' (var_close_btn d) ≡ some (bool (cmd == down)))
  unfolding set_command press
  set_command_stores d e cmd c c' w w' real ran =
      let (_, c1, w1) = write p (var_open_btn d) (bool (cmd == up)) plc_bool c w in
      ground (
        arith,
        write_real p m (var_open_btn d) (bool (cmd == up)) plc_bool c w,
        write_stores p m (var_open_btn d) (bool (cmd == up)) plc_bool c c1 w w1 (var_open_btn d),
        write_stores p m (var_close_btn d) (bool (cmd == down)) plc_bool c1 c' w1 w'
            (var_open_btn d),
        write_stores p m (var_close_btn d) (bool (cmd == down)) plc_bool c1 c' w1 w'
            (var_close_btn d),
        close_ne_open d,
        eqb_refl (var_open_btn d),
        eqb_refl (var_close_btn d),
      )

  -- The open button is written first. So on the way from down to up, when the write of the close
  -- button is refused and changes nothing, both buttons of the curtain stay held, and the caller
  -- sees the error.
  pub set_command_both_held :
      (d : CurtainMotor) (e : Error) (c c1 c2 : AdsClient) (w w1 w2 : W)
      → c.mock ≡ false
      → store w (var_close_btn d) ≡ some (bool true)
      → write p (var_open_btn d) (bool true) plc_bool c w ≡ (ok tt, c1, w1)
      → write p (var_close_btn d) (bool false) plc_bool c1 w1 ≡ (err e, c2, w2)
      → (store w2 (var_open_btn d) ≡ store w1 (var_open_btn d))
        × (store w2 (var_close_btn d) ≡ store w1 (var_close_btn d))
      → (set_command p d up c w ≡ (err e, c2, w2))
        × (store w2 (var_open_btn d) ≡ some (bool true))
        × (store w2 (var_close_btn d) ≡ some (bool true))
  unfolding set_command press
  set_command_both_held d e c c1 c2 w w1 w2 real closing opened refused unchanged = ground (
    arith,
    write_stores p m (var_open_btn d) (bool true) plc_bool c c1 w w1 (var_open_btn d),
    write_stores p m (var_open_btn d) (bool true) plc_bool c c1 w w1 (var_close_btn d),
    open_ne_close d,
    eqb_refl (var_open_btn d),
  )
