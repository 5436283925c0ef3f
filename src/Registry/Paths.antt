-- ===== src/Registry/Paths.antt =====
-- Which of its two paths to the PLC a write takes, and what the filling of gaps changes.
use phone_app.Base.{
  ℕ, ◌≤◌, ◌≡◌, ◌⊎◌, inl, inr, refl, ◌∙◌, Bool, true, false, not, ◌&&◌, ◌||◌, Option, none, some,
  List, [], ◌∷◌, arith, Option-cases,
}
use phone_app.Base.{get_at, get_at-put_at, between}
use phone_app.Base.Int.{ℤ, pos}
use phone_app.Ads.State.{Pyads, Result, ok, err}
use phone_app.Devices.Levels.{byte_to_pct-le, pct_to_byte, byte_to_pct}
use phone_app.Devices.Dali.{DaliChannel, set_brightness}
use phone_app.Modbus.{Pymodbus, ModbusClient}
use phone_app.Modbus.Points as Points
use phone_app.Registry.{Registry}
use phone_app.Registry.Fallback.{
  is_ready, on_modbus, after_write_dali, write_dali_of, write_dali_brightness, Readings, known,
  or_kept, read_value, fill_gaps, as_pct, read_pct, fill_dali_gaps,
}

abbrev pub is_ok : {A : Type 0} → Result A → Bool
is_ok (ok a) = true
is_ok (err e) = false

abbrev pub is_true : Result Bool → Bool
is_true (ok b) = b
is_true (err e) = false

module _ {W : Type 0} (p : Pyads W) (q : Pymodbus W) where
  -- Whether Modbus is there for the channel and takes the level of the percentage.
  abbrev pub modbus_takes : ℕ → ℤ → Option ModbusClient → W → Bool
  modbus_takes channel percent none w = false
  modbus_takes channel percent (some m) w =
      m.connected
      && between 1 channel 16
      && is_true (Points.write_dali_level q (pos channel) (pct_to_byte percent) m w).0

  -- A brightness is accepted exactly if ADS accepts it or, after that has failed, a connected Modbus
  -- client does, for the channels 1 to 16; an accepted ADS write leaves Modbus and the world alone.
  pub write_dali_paths :
      (channel : ℕ) (percent : ℤ) (r : Registry) (w : W) {d : DaliChannel}
      → get_at channel r.dali ≡ some d
      → let (x, r1, w1) = write_dali_brightness p q channel percent r w in
        let (y, c, u) = set_brightness p d percent r.client w in
        (is_ok x ≡ (is_ok y || modbus_takes channel percent r.modbus u))
        × ((is_ok y ≡ false) ⊎ ((r1.modbus ≡ r.modbus) × (w1 ≡ u)))
  unfolding write_dali_brightness write_dali_of after_write_dali is_ready on_modbus
  write_dali_paths channel percent r w {d} has =
      let (y, c, u) = set_brightness p d percent r.client w in
      elim (Option-cases r.modbus) [
        | inl absent ↦ ground arith
        | inr (m, there) ↦
            let x = Points.write_dali_level q (pos channel) (pct_to_byte percent) m u in
            ground arith
      ]

  abbrev pub FilledAt : ℕ → Option (Option ℕ) → Option (Option ℕ) → Type 0
  FilledAt k before after =
      (after ≡ before)
      ⊎ ((known before ≡ false)
          × (between 1 k 16 ≡ true)
          × ((v : ℕ) × (after ≡ some (some v)) × (v ≤ 100)))

  FilledAt-trans :
      (k : ℕ) (a b c : Option (Option ℕ)) → FilledAt k a b → FilledAt k b c → FilledAt k a c
  FilledAt-trans k a b c (inl same) h = rw (← same) h
  FilledAt-trans k a b c (inr (gap, fits, (v, e, le))) (inl same) =
      inr (gap, fits, (v, same ∙ e, le))
  FilledAt-trans k a b c (inr (gap, fits, (v, e, le))) (inr again) = ground arith

  filled_one :
      (k u : ℕ) (filled : Readings ℕ) (raw : Result (Option ℕ))
      → known (get_at k filled) || not (between 1 k 16) ≡ false
      → FilledAt u (get_at u filled) (get_at u (or_kept k filled (read_value (as_pct q raw))))
  filled_one k u filled (err e) open_gap = inl refl
  filled_one k u filled (ok none) open_gap = inl refl
  filled_one k u filled (ok (some raw)) open_gap =
      let v = byte_to_pct (pos raw) in
      ground (arith, get_at-put_at k u (some v) filled, byte_to_pct-le (pos raw))

  fill_gaps-FilledAt :
      (u : ℕ) (ks : List ℕ) (filled : Readings ℕ) (m : ModbusClient) (w : W)
      → FilledAt u (get_at u filled) (get_at u (fill_gaps 16 (read_pct q) ks filled m w).0)
  unfolding fill_gaps
  fill_gaps-FilledAt u [] filled m w = inl refl
  fill_gaps-FilledAt u (k ∷ ks) filled m w =
      let (x, n, w1) = Points.read_dali_level q (pos k) m w in
      let next = or_kept k filled (read_value (as_pct q x)) in
      ground (
        arith,
        fill_gaps-FilledAt u ks filled m w,
        filled_one k u filled x,
        FilledAt-trans u (get_at u filled) (get_at u next)
            (get_at u (fill_gaps 16 (read_pct q) ks next n w1).0),
        fill_gaps-FilledAt u ks next n w1,
      )

  -- Filling the gaps of the DALI levels from Modbus changes no level that ADS has read; a level that
  -- it adds is a percentage, for one of the channels 1 to 16.
  pub fill_dali_gaps-FilledAt :
      (keys : List ℕ) (levels : Readings ℕ) (m : Option ModbusClient) (w : W) (k : ℕ)
      → FilledAt k (get_at k levels) (get_at k (fill_dali_gaps q keys levels m w).0)
  unfolding fill_dali_gaps
  fill_dali_gaps-FilledAt keys levels none w k = inl refl
  fill_dali_gaps-FilledAt keys levels (some m) w k =
      ground (arith, fill_gaps-FilledAt k keys levels m w)
