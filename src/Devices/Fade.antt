-- ===== src/Devices/Fade.antt =====
-- Fades of a DALI channel: `DaliChannel.fade_to`, when nobody cancels it.
use phone_app.Base.{◌/◌, min, max, lt→ltb, ℕ, zero, suc, ◌+◌, ◌≤◌, ◌≡◌, refl, Bool, true, arith}
use phone_app.Base.Int.{pos}
use phone_app.Ads.State.{Pyads, AdsClient, ok, ◌>>=◌}
use phone_app.Devices.Levels.{pct_to_byte, byte_to_pct, byte_to_pct-pct_to_byte}
use phone_app.Devices.Dali.{DaliChannel, set_brightness, read_actual_level, fade_steps, fade_to}

module _ {W : Type 0} (p : Pyads W) (level_at : ℕ → ℕ → ℕ → ℕ → ℕ) (go : ℕ → Bool)
    (goes : (i : ℕ) → go i ≡ true) (start target steps interval : ℕ) (small : target ≤ 100)
    (last : level_at start target steps steps ≡ target) where
  fade_steps_reach :
      (left i : ℕ) (d : DaliChannel) (c : AdsClient) (w : W)
      → i + left ≡ steps
      → c.mock ≡ true
      → ((fade_steps p level_at go start target steps interval i (suc left) d
            >>= read_actual_level p)
          c w).0
        ≡ ok target
  unfolding fade_steps set_brightness read_actual_level
  fade_steps_reach zero i d c w h mocked =
      let e : i ≡ steps = omega arith in
      rw e (ground (arith, goes steps, last, byte_to_pct-pct_to_byte target small))
  fade_steps_reach (suc left) i d c w h mocked =
      let e = record d { mock_level = pct_to_byte (pos (level_at start target i steps)) } in
      ground (arith, goes i, lt→ltb i steps, fade_steps_reach left (i + 1) e c (p.sleep interval w))

  fade_steps_all :
      (n : ℕ) (d : DaliChannel) (c : AdsClient) (w : W)
      → n ≡ steps
      → 1 ≤ n
      → c.mock ≡ true
      → ((fade_steps p level_at go start target steps interval 1 n d >>= read_actual_level p) c w).0
        ≡ ok target
  fade_steps_all zero d c w e h mocked = absurd (omega arith)
  fade_steps_all (suc n) d c w e h mocked = fade_steps_reach n 1 d c w (omega arith) mocked

-- Where no newer request cancels it and the float interpolation ends exactly on its target, a fade
-- of a mock channel to a percentage from 0 to 100 ends, and the level that is read afterwards is that
-- percentage, whatever the duration and the level it started from.
pub fade_to-read_actual_level :
    {W : Type 0} (p : Pyads W) (level_at : ℕ → ℕ → ℕ → ℕ → ℕ) (go : ℕ → Bool) (d : DaliChannel)
    (target duration_ms : ℕ) (c : AdsClient) (w : W)
    → ((i : ℕ) → go i ≡ true)
    → ((start steps : ℕ) → level_at start target steps steps ≡ target)
    → target ≤ 100
    → c.mock ≡ true
    → ((fade_to p level_at go d target duration_ms >>= read_actual_level p) c w).0 ≡ ok target
unfolding fade_to read_actual_level
fade_to-read_actual_level p level_at go d target duration_ms c w goes last small mocked =
    let start = byte_to_pct (pos d.mock_level) in
    let steps = max 2 (min 16 (duration_ms / 100)) in
    ground (
      arith,
      fade_steps_all p level_at go goes start target steps (duration_ms / steps) small
          (last start steps) steps d c w refl (omega arith),
    )
