-- ===== src/Registry/Fades.antt =====
-- find_device/plc/registry.py: the tokens of `fade_dali`, by which a new fade of a channel ends the older
-- ones. The fade itself is `DaliChannel.fade_to`; its threads are in Registry.FadeThreads.
use phone_app.Base.{ℕ, ◌+◌, Bool, false, Option, none, some, ◌==◌, if◌then◌else◌}
use phone_app.Base.{get_at, put_at, is_some}
use phone_app.Registry.{Registry}

abbrev pub or_zero : Option ℕ → ℕ
or_zero none = 0
or_zero (some n) = n

abbrev pub is_number : ℕ → Option ℕ → Bool
is_number g none = false
is_number g (some n) = n == g

-- `_should_continue`
unfoldable pub should_continue : ℕ → ℕ → Registry → Bool
should_continue channel my_gen r = is_number my_gen (get_at channel r.fade_generation)

-- `fade_dali` up to the start of its thread, which gets the token; `none` is False, without a device.
unfoldable pub fade_dali : ℕ → Registry → Option ℕ × Registry
fade_dali channel r =
    let my_gen = or_zero (get_at channel r.fade_generation) + 1 in
    if is_some (get_at channel r.dali)
    then (some my_gen, record r { fade_generation = put_at channel my_gen r.fade_generation })
    else (none, r)
