-- ===== src/Registry/FadeThreads.antt =====
-- find_device/plc/registry.py, `fade_dali`, with the threads that run `DaliChannel.fade_to`: each step of a
-- thread is a test of its token and, after a True, a write of `set_brightness`; other threads may come
-- between the two.
use phone_app.Base.{
  ℕ, ◌+◌, ◌<◌, ◌≤◌, ◌≡◌, Bool, true, false, not, ◌&&◌, some, List, [], ◌∷◌, arith, ◌==◌,
  if◌then◌else◌,
}
use phone_app.Base.{get_at, get_at-put_at}
use phone_app.Registry.{Registry}
use phone_app.Registry.Fades.{or_zero, should_continue, fade_dali}

-- A thread is known by its channel and its token.
pub data FadeEvent : Type 0 where
  start_fade : ℕ → FadeEvent
  test_token set_level : ℕ → ℕ → FadeEvent

-- The threads whose last test was True and whose write is to come.
pub record Fading : Type 0 where
  pub registry : Registry
  pub cleared : ℕ → ℕ → Bool

abbrev pub set_cleared : ℕ → ℕ → Bool → (ℕ → ℕ → Bool) → ℕ → ℕ → Bool
set_cleared channel g b cleared c h = if c == channel && h == g then b else cleared c h

-- One event. A thread writes only after a test, and tests again only after the write.
unfoldable pub fade_step : FadeEvent → Fading → Fading
fade_step (start_fade channel) s = record s { registry = (fade_dali channel s.registry).1 }
fade_step (test_token channel g) s =
    if should_continue channel g s.registry
    then record s { cleared = set_cleared channel g true s.cleared }
    else s
fade_step (set_level channel g) s = record s { cleared = set_cleared channel g false s.cleared }

unfoldable pub fade_run : List FadeEvent → Fading → Fading
fade_run [] s = s
fade_run (e ∷ es) s = fade_run es (fade_step e s)

-- Does the event write the level of the thread?
unfoldable pub is_write : ℕ → ℕ → FadeEvent → Fading → Bool
is_write channel g (start_fade c) s = false
is_write channel g (test_token c h) s = false
is_write channel g (set_level c h) s = c == channel && h == g && s.cleared c h

-- How often the thread writes in a run.
unfoldable pub writes_of : ℕ → ℕ → List FadeEvent → Fading → ℕ
writes_of channel g [] s = 0
writes_of channel g (e ∷ es) s =
    let rest = writes_of channel g es (fade_step e s) in
    if is_write channel g e s then 1 + rest else rest

abbrev pub token_of : ℕ → Registry → ℕ
token_of channel r = or_zero (get_at channel r.fade_generation)

fade_dali-token :
    (c channel : ℕ) (r : Registry) → token_of channel r ≤ token_of channel (fade_dali c r).1
unfolding fade_dali
fade_dali-token c channel r =
    ground (arith, get_at-put_at c channel (token_of c r + 1) r.fade_generation)

fade_step-token :
    (channel : ℕ) (e : FadeEvent) (s : Fading)
    → token_of channel s.registry ≤ token_of channel (fade_step e s).registry
unfolding fade_step
fade_step-token channel (start_fade c) s = fade_dali-token c channel s.registry
fade_step-token channel (test_token c h) s = ground arith
fade_step-token channel (set_level c h) s = ground arith

fade_run-token :
    (channel : ℕ) (es : List FadeEvent) (s : Fading)
    → token_of channel s.registry ≤ token_of channel (fade_run es s).registry
unfolding fade_run
fade_run-token channel [] s = omega arith
fade_run-token channel (e ∷ es) s =
    omega (arith, fade_step-token channel e s, fade_run-token channel es (fade_step e s))

past_token :
    (channel g : ℕ) (r : Registry) → g < token_of channel r → should_continue channel g r ≡ false
unfolding should_continue
past_token channel g r past = ground arith

-- What one event does to a thread whose token is past: no new test succeeds, and a write is the last.
past_step :
    (channel g : ℕ) (e : FadeEvent) (s : Fading)
    → g < token_of channel s.registry
    → (fade_step e s).cleared channel g ≡ (s.cleared channel g && not (is_write channel g e s))
unfolding fade_step is_write
past_step channel g (start_fade c) s past = ground arith
past_step channel g (test_token c h) s past = ground (arith, past_token channel g s.registry past)
past_step channel g (set_level c h) s past = ground arith

is_write-cleared :
    (channel g : ℕ) (e : FadeEvent) (s : Fading)
    → is_write channel g e s ≡ true
    → s.cleared channel g ≡ true
unfolding is_write
is_write-cleared channel g (start_fade c) s h = ground arith
is_write-cleared channel g (test_token c k) s h = ground arith
is_write-cleared channel g (set_level c k) s h = ground arith

past_writes :
    (channel g : ℕ) (es : List FadeEvent) (s : Fading)
    → g < token_of channel s.registry
    → writes_of channel g es s ≤ (if s.cleared channel g then 1 else 0)
unfolding writes_of
past_writes channel g [] s past = ground arith
past_writes channel g (e ∷ es) s past = ground (
  arith,
  past_step channel g e s past,
  is_write-cleared channel g e s,
  fade_step-token channel e s,
  past_writes channel g es (fade_step e s),
)

fade_dali-passes :
    (channel : ℕ) (r : Registry) {h : ℕ} {r2 : Registry}
    → fade_dali channel r ≡ (some h, r2)
    → token_of channel r < token_of channel r2
unfolding fade_dali
fade_dali-passes channel r e =
    ground (arith, get_at-put_at channel channel (token_of channel r + 1) r.fade_generation)

fade_dali-gives :
    (channel : ℕ) (r : Registry) {g : ℕ} {r1 : Registry}
    → fade_dali channel r ≡ (some g, r1)
    → token_of channel r1 ≡ g
unfolding fade_dali
fade_dali-gives channel r e =
    ground (arith, get_at-put_at channel channel (token_of channel r + 1) r.fade_generation)

-- However the threads of the fades interleave: after a newer fade of its channel is started, an older
-- fade writes at most once more, and not at all unless its last token test was True and the write of that
-- step was still to come.
pub older_fade_ends :
    (channel : ℕ) (s : Fading) (earlier later : List FadeEvent) {g h : ℕ} {r1 r2 : Registry}
    → fade_dali channel s.registry ≡ (some g, r1)
    → let t = fade_run earlier (record s { registry = r1 }) in
      fade_dali channel t.registry ≡ (some h, r2)
      → writes_of channel g later (record t { registry = r2 })
        ≤ (if t.cleared channel g then 1 else 0)
older_fade_ends channel s earlier later {g} {h} {r1} {r2} older newer =
    let t = fade_run earlier (record s { registry = r1 }) in
    past_writes channel g later (record t { registry = r2 })
      (omega (
        arith,
        fade_dali-gives channel s.registry older,
        fade_run-token channel earlier (record s { registry = r1 }),
        fade_dali-passes channel t.registry newer,
      ))
