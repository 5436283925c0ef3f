-- ===== src/Devices/Levels.antt =====
-- find_device/plc/devices.py: the two conversions between a percentage and a DALI level. Over the
-- 101 percentages and the 255 levels Python's float arithmetic gives what exact division gives, so
-- they are integer divisions here; no level lies half way between two percentages.
use phone_app.Base.{◌/◌, ℕ, ◌+◌, ◌*◌, ◌≤◌, ◌≡◌, arith}
use phone_app.Base.Int.{ℤ, pos, clamp_to, ◌≤ℤ◌}

-- `pct_to_byte`: the clamped percentage times 254 / 100, rounded down.
unfoldable pub pct_to_byte : ℤ → ℕ
pct_to_byte pct = clamp_to 100 pct * 254 / 100

-- `byte_to_pct`: the clamped level times 100 / 254, rounded to the nearest.
unfoldable pub byte_to_pct : ℤ → ℕ
byte_to_pct b = (clamp_to 254 b * 200 + 254) / 508

-- A percentage from 0 to 100 that is sent as a level and read back is the same percentage.
pub byte_to_pct-pct_to_byte : (n : ℕ) → n ≤ 100 → byte_to_pct (pos (pct_to_byte (pos n))) ≡ n
unfolding pct_to_byte byte_to_pct
byte_to_pct-pct_to_byte n h = ground arith

-- A larger percentage never gives a smaller level, and a larger level never a smaller percentage.
pub level_mono :
    (a b : ℤ) → a ≤ℤ b → (pct_to_byte a ≤ pct_to_byte b) × (byte_to_pct a ≤ byte_to_pct b)
unfolding pct_to_byte byte_to_pct
level_mono a b h = ground arith

pub byte_to_pct-le : (b : ℤ) → byte_to_pct b ≤ 100
unfolding byte_to_pct
byte_to_pct-le b = ground arith
