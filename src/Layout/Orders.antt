-- ===== src/Layout/Orders.antt =====
-- The order that `apartment_rooms_reorder` and `apartment_devices_reorder` leave.
use phone_app.Base.{
  ℕ, ◌+◌, ◌≡◌, refl, sym, ap, ◌∙◌, Option, none, some, List, [], ◌∷◌, map, arith, ◌==◌,
  if◌then◌else◌,
}
use phone_app.Base.Int.{ℤ, pos}
use phone_app.Accounts.{ok}
use phone_app.Layout.{Room, Device, Layout, set_order, reorder_from, reorder_rooms}
use phone_app.Layout.Devices.{set_device_order, reorder_devices_from, reorder_devices}

-- The last place of an id in a list that is numbered from `index`.
unfoldable pub last_place : ℕ → ℕ → List ℕ → Option ℕ
last_place id index [] = none
last_place id index (x ∷ xs) = elim (last_place id (index + 1) xs) [
  | some i ↦ some i
  | none ↦ if x == id then some index else none
]

abbrev pub at_place : Option ℕ → ℤ → ℤ
at_place none n = n
at_place (some i) n = pos i

-- A row of the apartment has its last place in the list as its order, if it is in the list; every other row
-- is as it was.
abbrev pub placed_room : ℕ → ℕ → List ℕ → Room → Room
placed_room apartment index order r =
    if r.apartment == apartment
    then record r { sort_order = at_place (last_place r.pk index order) r.sort_order }
    else r

set_order-map :
    (apartment index room : ℕ) (order : List ℕ) (rs : List Room)
    → map (placed_room apartment (index + 1) order) (set_order apartment index room rs)
      ≡ map (placed_room apartment index (room ∷ order)) rs
unfolding set_order last_place
set_order-map apartment index room order [] = refl
set_order-map apartment index room order (r ∷ rs) =
    ground (arith, set_order-map apartment index room order rs)

placed_room-nil :
    (apartment index : ℕ) (rs : List Room) → map (placed_room apartment index []) rs ≡ rs
unfolding last_place
placed_room-nil apartment index [] = refl
placed_room-nil apartment index (r ∷ rs) = ground (arith, placed_room-nil apartment index rs)

pub reorder_from-map :
    (apartment index : ℕ) (order : List ℕ) (rs : List Room)
    → reorder_from apartment index order rs ≡ map (placed_room apartment index order) rs
unfolding reorder_from
reorder_from-map apartment index [] rs = sym (placed_room-nil apartment index rs)
reorder_from-map apartment index (room ∷ order) rs =
    reorder_from-map apartment (index + 1) order (set_order apartment index room rs)
    ∙ set_order-map apartment index room order rs

-- The same for devices.
abbrev pub placed_device : ℕ → ℕ → List ℕ → Device → Device
placed_device apartment index order d =
    if d.apartment == apartment
    then record d { sort_order = at_place (last_place d.pk index order) d.sort_order }
    else d

set_device_order-map :
    (apartment index device : ℕ) (order : List ℕ) (ds : List Device)
    → map (placed_device apartment (index + 1) order) (set_device_order apartment index device ds)
      ≡ map (placed_device apartment index (device ∷ order)) ds
unfolding set_device_order last_place
set_device_order-map apartment index device order [] = refl
set_device_order-map apartment index device order (d ∷ ds) =
    ground (arith, set_device_order-map apartment index device order ds)

placed_device-nil :
    (apartment index : ℕ) (ds : List Device) → map (placed_device apartment index []) ds ≡ ds
unfolding last_place
placed_device-nil apartment index [] = refl
placed_device-nil apartment index (d ∷ ds) = ground (arith, placed_device-nil apartment index ds)

pub reorder_devices_from-map :
    (apartment index : ℕ) (order : List ℕ) (ds : List Device)
    → reorder_devices_from apartment index order ds ≡ map (placed_device apartment index order) ds
unfolding reorder_devices_from
reorder_devices_from-map apartment index [] ds = sym (placed_device-nil apartment index ds)
reorder_devices_from-map apartment index (device ∷ order) ds =
    reorder_devices_from-map apartment (index + 1) order
      (set_device_order apartment index device ds)
    ∙ set_device_order-map apartment index device order ds

-- A reorder is one pass over the rows: each room, or device, of the apartment that the list names gets the
-- last place at which the list names it, counted from 0, and nothing else changes: not the rows of other
-- apartments, whose ids the list may hold too.
pub reorder-map :
    (apartment : ℕ) (order : List ℕ) (l : Layout)
    → (reorder_rooms apartment (some order) l
        ≡ (ok, record l { rooms = map (placed_room apartment 0 order) l.rooms }))
      × (reorder_devices apartment (some order) l
          ≡ (ok, record l { devices = map (placed_device apartment 0 order) l.devices }))
unfolding reorder_rooms reorder_devices
reorder-map apartment order l = (
  ap (λ rs. (ok, record l { rooms = rs })) (reorder_from-map apartment 0 order l.rooms),
  ap (λ ds. (ok, record l { devices = ds })) (reorder_devices_from-map apartment 0 order l.devices),
)
