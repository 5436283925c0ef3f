-- ===== src/Lights/Sunset.antt =====
-- The sunset override on the clock as a circle: `lights_should_be_on`.
use phone_app.Base.{ℕ, ◌+◌, ◌-◌, ◌<◌, ◌≡◌, not, ◌&&◌, arith, ltb, leb, ◌==◌, if◌then◌else◌}
use phone_app.Lights.{lights_should_be_on}

-- How long after `start` a time of day next comes, on a clock that goes round in `day`.
abbrev pub after_start : ℕ → ℕ → ℕ → ℕ
after_start day start t = if leb start t then t - start else (t + day) - start

-- For times of one day, the lights are on exactly if, going round the clock from sunset, the
-- present time comes before sunrise does, whether or not midnight lies between.
pub lights_should_be_on_lem :
    (day now sunset sunrise : ℕ)
    → now < day
    → sunset < day
    → sunrise < day
    → lights_should_be_on now sunset sunrise
      ≡ ltb (after_start day sunset now) (after_start day sunset sunrise)
unfolding lights_should_be_on
lights_should_be_on_lem day now sunset sunrise h1 h2 h3 = ground arith

-- At every time of the day the lights are on under exactly one of two overrides that exchange two
-- different times of sunset and sunrise; with equal times they are never on.
pub lights_should_be_on_swap :
    (now a b : ℕ)
    → (lights_should_be_on now a b ≡ (not (a == b) && not (lights_should_be_on now b a)))
unfolding lights_should_be_on
lights_should_be_on_swap now a b = ground arith
