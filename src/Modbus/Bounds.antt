-- ===== src/Modbus/Bounds.antt =====
-- The registers and coils that the client reaches, and the back-off of its reconnect thread.
use phone_app.Base.{
  ℕ, ◌+◌, ◌≡◌, inl, inr, Bool, ◌||◌, arith, ltb, leb, if◌then◌else◌, Bool-cases, Option-cases, Text,
}
use phone_app.Base.{false}
use phone_app.Base.Int.{ℤ, pos, negsuc, pred_ℤ}
use phone_app.Ads.State.{Outcome}
use phone_app.Modbus.{ensure_connected, Reply, Pymodbus, ModbusClient}
use phone_app.Modbus.Points.{
  coil_error, input_error, register_error, level_error, curtain_coils, dali_channels, finish_write,
  finish_read, relay_count, read_dali_level, write_dali_level, read_relay, write_relay,
  read_curtain, write_curtain_button, read_one, write_one,
}

-- What a server does with addresses that POU_Modbus does not bridge.
pub record Elsewhere (W : Type 0) : Type 0 where
  pub register : ℕ → ℤ → ℕ → W → Outcome (Reply ℕ) × W
  pub input : ℕ → ℤ → ℕ → W → Outcome (Reply Bool) × W
  pub set_register : ℕ → ℤ → ℕ → ℕ → W → Outcome Bool × W
  pub set_coil : ℕ → ℤ → Bool → ℕ → W → Outcome Bool × W

-- Is an address among the first `n`?
abbrev pub is_below : ℕ → ℤ → Bool
is_below n (pos a) = ltb a n
is_below n (negsuc a) = false

-- The same server, but with other answers outside the registers 0 to 15 and the coils and inputs 0 to 7.
abbrev pub with_elsewhere : {W : Type 0} → Elsewhere W → Pymodbus W → Pymodbus W
with_elsewhere o p = record p {
  read_input_registers =
      λ k a u w. if is_below 16 a then p.read_input_registers k a u w else o.register k a u w;
  read_discrete_inputs =
      λ k a u w. if is_below 8 a then p.read_discrete_inputs k a u w else o.input k a u w;
  write_register =
      λ k a v u w. if is_below 16 a then p.write_register k a v u w else o.set_register k a v u w;
  write_coil = λ k a v u w. if is_below 8 a then p.write_coil k a v u w else o.set_coil k a v u w;
}

module _ {W : Type 0} (o : Elsewhere W) (p : Pymodbus W) where
  read_one-agrees :
      {A : Type 0} (msg : Text) (f g : ℕ → W → Outcome (Reply A) × W) (c : ModbusClient) (w : W)
      → ((k : ℕ) (u : W) → f k u ≡ g k u)
      → read_one (with_elsewhere o p) msg f c w ≡ read_one p msg g c w
  unfolding read_one finish_read
  read_one-agrees msg f g c w same = elim (Option-cases (ensure_connected c).1.client) [
    | inl nobody ↦ ground arith
    | inr (k, has) ↦ ground (arith, same k w)
  ]

  write_one-agrees :
      (msg : Text) (f g : ℕ → W → Outcome Bool × W) (c : ModbusClient) (w : W)
      → ((k : ℕ) (u : W) → f k u ≡ g k u)
      → write_one (with_elsewhere o p) msg f c w ≡ write_one p msg g c w
  unfolding write_one finish_write
  write_one-agrees msg f g c w same = elim (Option-cases (ensure_connected c).1.client) [
    | inl nobody ↦ ground arith
    | inr (k, has) ↦ ground (arith, same k w)
  ]

  read_dali_level-agrees :
      (n : ℤ) (c : ModbusClient) (w : W)
      → read_dali_level (with_elsewhere o p) n c w ≡ read_dali_level p n c w
  unfolding read_dali_level
  read_dali_level-agrees (negsuc n) c w = ground arith
  read_dali_level-agrees (pos n) c w =
      let q = with_elsewhere o p in
      elim (Bool-cases (ltb n 1 || ltb dali_channels n)) [
        | inl outside ↦ ground arith
        | inr inside ↦ ground (
          arith,
          read_one-agrees (level_error (pred_ℤ (pos n)))
              (λ k. q.read_input_registers k (pred_ℤ (pos n)) c.unit_id)
              (λ k. p.read_input_registers k (pred_ℤ (pos n)) c.unit_id) c w (λ k u. ground arith),
        )
      ]

  write_dali_level-agrees :
      (n : ℤ) (v : ℕ) (c : ModbusClient) (w : W)
      → write_dali_level (with_elsewhere o p) n v c w ≡ write_dali_level p n v c w
  unfolding write_dali_level
  write_dali_level-agrees (negsuc n) v c w = ground arith
  write_dali_level-agrees (pos n) v c w =
      let q = with_elsewhere o p in
      elim (Bool-cases (ltb n 1 || ltb dali_channels n)) [
        | inl outside ↦ ground arith
        | inr inside ↦ ground (
          arith,
          write_one-agrees (register_error (pred_ℤ (pos n)) v)
              (λ k. q.write_register k (pred_ℤ (pos n)) v c.unit_id)
              (λ k. p.write_register k (pred_ℤ (pos n)) v c.unit_id) c w (λ k u. ground arith),
        )
      ]

  read_relay-agrees :
      (n : ℤ) (c : ModbusClient) (w : W)
      → read_relay (with_elsewhere o p) n c w ≡ read_relay p n c w
  unfolding read_relay
  read_relay-agrees (negsuc n) c w = ground arith
  read_relay-agrees (pos n) c w =
      let q = with_elsewhere o p in
      elim (Bool-cases (leb relay_count n)) [
        | inl outside ↦ ground arith
        | inr inside ↦ ground (
          arith,
          read_one-agrees (input_error (pos n)) (λ k. q.read_discrete_inputs k (pos n) c.unit_id)
              (λ k. p.read_discrete_inputs k (pos n) c.unit_id) c w (λ k u. ground arith),
        )
      ]

  write_relay-agrees :
      (n : ℤ) (on : Bool) (c : ModbusClient) (w : W)
      → write_relay (with_elsewhere o p) n on c w ≡ write_relay p n on c w
  unfolding write_relay
  write_relay-agrees (negsuc n) on c w = ground arith
  write_relay-agrees (pos n) on c w =
      let q = with_elsewhere o p in
      elim (Bool-cases (leb relay_count n)) [
        | inl outside ↦ ground arith
        | inr inside ↦ ground (
          arith,
          write_one-agrees (coil_error (pos n) on) (λ k. q.write_coil k (pos n) on c.unit_id)
              (λ k. p.write_coil k (pos n) on c.unit_id) c w (λ k u. ground arith),
        )
      ]

  read_curtain-agrees :
      (n : ℤ) (c : ModbusClient) (w : W)
      → read_curtain (with_elsewhere o p) n c w ≡ read_curtain p n c w
  unfolding read_curtain
  read_curtain-agrees (negsuc n) c w = ground arith
  read_curtain-agrees (pos n) c w =
      let q = with_elsewhere o p in
      elim (Bool-cases (leb curtain_coils n)) [
        | inl outside ↦ ground arith
        | inr inside ↦ ground (
          arith,
          read_one-agrees (input_error (pos (relay_count + n)))
              (λ k. q.read_discrete_inputs k (pos (relay_count + n)) c.unit_id)
              (λ k. p.read_discrete_inputs k (pos (relay_count + n)) c.unit_id) c w
              (λ k u. ground arith),
        )
      ]

  write_curtain_button-agrees :
      (n : ℤ) (on : Bool) (c : ModbusClient) (w : W)
      → write_curtain_button (with_elsewhere o p) n on c w ≡ write_curtain_button p n on c w
  unfolding write_curtain_button
  write_curtain_button-agrees (negsuc n) on c w = ground arith
  write_curtain_button-agrees (pos n) on c w =
      let q = with_elsewhere o p in
      elim (Bool-cases (leb curtain_coils n)) [
        | inl outside ↦ ground arith
        | inr inside ↦ ground (
          arith,
          write_one-agrees (coil_error (pos (relay_count + n)) on)
              (λ k. q.write_coil k (pos (relay_count + n)) on c.unit_id)
              (λ k. p.write_coil k (pos (relay_count + n)) on c.unit_id) c w (λ k u. ground arith),
        )
      ]

  -- Whatever integer it is given, negative ones included, no method reaches a register or coil outside those that the PLC
  -- program bridges: a server that answers otherwise for all other addresses makes no difference.
  pub points_in_map :
      (n : ℤ) (v : ℕ) (on : Bool) (c : ModbusClient) (w : W)
      → let q = with_elsewhere o p in
        (read_dali_level q n c w ≡ read_dali_level p n c w)
        × (write_dali_level q n v c w ≡ write_dali_level p n v c w)
        × (read_relay q n c w ≡ read_relay p n c w)
        × (write_relay q n on c w ≡ write_relay p n on c w)
        × (read_curtain q n c w ≡ read_curtain p n c w)
        × (write_curtain_button q n on c w ≡ write_curtain_button p n on c w)
  points_in_map n v on c w = (
    read_dali_level-agrees n c w,
    write_dali_level-agrees n v c w,
    read_relay-agrees n c w,
    write_relay-agrees n on c w,
    read_curtain-agrees n c w,
    write_curtain_button-agrees n on c w,
  )
