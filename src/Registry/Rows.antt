-- ===== src/Registry/Rows.antt =====
-- Which devices the loading of rows leaves in the registry.
use phone_app.Base.{
  ℕ, ◌≡◌, inl, inr, Bool, true, false, not, ◌&&◌, Option, none, some, List, [], ◌∷◌, ◌++◌, arith,
  ◌==◌, if◌then◌else◌, Option-cases,
}
use phone_app.Base.{get_at, get_at-put_at, is_some}
use phone_app.Devices.Dali.{DaliChannel, new_dali}
use phone_app.Registry.{Registry}
use phone_app.Registry.Loading.{
  Row, DeviceType, type_dali, type_relay, type_switch, type_curtain, type_appliance,
  type_door_sensor, type_window_sensor, type_motion_sensor, type_toggle, type_named_switch,
  type_custom, room_name, Format, new_templated, add_typed, add_row, load_rows, cleared,
  refresh_devices,
}

-- A row of this DALI channel that is not addressed by a scheme.
abbrev pub is_type_dali : DeviceType → Bool
is_type_dali type_dali = true
is_type_dali _ = false

abbrev pub has_channel : ℕ → Option ℕ → Bool
has_channel ch none = false
has_channel ch (some n) = n == ch

abbrev pub is_dali_row : ℕ → Row → Bool
is_dali_row ch d =
    not (is_some d.address_scheme)
    && is_type_dali d.device_type
    && has_channel ch d.channel_or_index

-- The channel that a row describes, and the one that the rows describe: the last row wins.
abbrev pub dali_of : ℕ → Row → DaliChannel
dali_of ch d = record {
  channel = ch;
  name = d.name;
  room = room_name d.room;
  apartment_device_id = d.pk;
  mock_level = 0;
}

abbrev pub described : ℕ → List Row → Option DaliChannel → Option DaliChannel
described ch [] known = known
described ch (d ∷ rows) known =
    described ch rows (if is_dali_row ch d then some (dali_of ch d) else known)

add_typed-dali :
    (ch : ℕ) (t : DeviceType) (d : Row) (r : Registry) {r1 : Registry}
    → add_typed t d r ≡ some r1
    → get_at ch r1.dali ≡ (
        if is_type_dali t && has_channel ch d.channel_or_index
        then some (dali_of ch d)
        else get_at ch r.dali)
unfolding add_typed new_dali
add_typed-dali ch type_dali d r {r1} e = elim (Option-cases d.channel_or_index) [
  | inl nothing ↦ ground arith
  | inr (n, has) ↦ ground (arith, get_at-put_at n ch (dali_of n d) r.dali)
]
add_typed-dali ch type_relay d r e = ground arith
add_typed-dali ch type_switch d r e = ground arith
add_typed-dali ch type_curtain d r e = ground arith
add_typed-dali ch type_appliance d r e = ground arith
add_typed-dali ch type_toggle d r e = ground arith
add_typed-dali ch type_named_switch d r e = ground arith
add_typed-dali ch type_door_sensor d r e = ground arith
add_typed-dali ch type_window_sensor d r e = ground arith
add_typed-dali ch type_motion_sensor d r e = ground arith
add_typed-dali ch type_custom d r e = ground arith

add_row-dali :
    (format : Format) (ch : ℕ) (d : Row) (r : Registry) {r1 : Registry}
    → add_row format d d.address_scheme r ≡ some r1
    → get_at ch r1.dali ≡ (if is_dali_row ch d then some (dali_of ch d) else get_at ch r.dali)
unfolding add_row
add_row-dali format ch d r {r1} e = elim (Option-cases d.address_scheme) [
  | inl plain ↦ ground (arith, add_typed-dali ch d.device_type d r {r1 = r1})
  | inr (s, has) ↦ ground (arith, Option-cases (new_templated format d s))
]

-- When all rows of an apartment load, the registry has for each DALI channel the device that the last
-- row of that channel describes, and where no row has the channel what it had before.
pub load_rows-dali :
    (format : Format) (ch : ℕ) (rows : List Row) (r : Registry) {r1 : Registry}
    → load_rows format rows r ≡ (true, r1)
    → get_at ch r1.dali ≡ described ch rows (get_at ch r.dali)
unfolding load_rows
load_rows-dali format ch [] r e = ground arith
load_rows-dali format ch (d ∷ rows) r {r1} e =
    elim (Option-cases (add_row format d d.address_scheme r)) [
      | inl bad ↦ ground arith
      | inr (r2, good) ↦ ground (
        arith,
        add_row-dali format ch d r {r1 = r2} good,
        load_rows-dali format ch rows r2 {r1 = r1},
      )
    ]

load_rows-append :
    (format : Format) (before after : List Row) (r : Registry) {r1 : Registry}
    → load_rows format before r ≡ (true, r1)
    → load_rows format (before ++ after) r ≡ load_rows format after r1
unfolding load_rows
load_rows-append format [] after r e = ground arith
load_rows-append format (d ∷ rows) after r {r1} e =
    elim (Option-cases (add_row format d d.address_scheme r)) [
      | inl bad ↦ ground arith
      | inr (r2, good) ↦ ground (arith, load_rows-append format rows after r2 {r1 = r1})
    ]

-- A row whose device cannot be built, such as a DALI channel 29 or a malformed scheme, ends a refresh
-- with an exception, and the registry then has only the devices of the rows before it, whatever rows
-- come after it and whatever devices it had.
pub bad_row_drops_rest :
    (format : Format) (before after : List Row) (bad : Row) (r : Registry) {r1 : Registry}
    → load_rows format before (cleared r) ≡ (true, r1)
    → add_row format bad bad.address_scheme r1 ≡ none
    → refresh_devices format (some (before ++ (bad ∷ after))) r ≡ (false, r1)
unfolding refresh_devices load_rows
bad_row_drops_rest format before after bad r {r1} loads fails =
    ground (arith, load_rows-append format before (bad ∷ after) (cleared r) {r1 = r1} loads)
