-- ===== src/Layout/Placed.antt =====
-- Where the devices of an apartment stand: in rooms of their own apartment.
use phone_app.Base.{
  ℕ, ◌≡◌, inl, inr, refl, Bool, true, false, Option, none, some, List, [], ◌∷◌, map, arith,
  Bool-cases, eqb,
}
use phone_app.Base.{all, is_some, strip}
use phone_app.Base.Int.{ℤ}
use phone_app.Json.{Json, json_int, json_text}
use phone_app.Layout.{
  Room, Device, Layout, Step, stop, go_on, find_room, drop_room, leave_room, is_in_room,
}
use phone_app.Layout.Devices.{
  find_device, save_device, device_name, device_room, in_room, device_order, device_with_order,
  finish_device, patched_device, DevicePatch, ◌>>=◌,
}
use phone_app.Layout.Orders.{placed_device}
use phone_app.Layout.Keyed.{are_keyed, Kept, find_room-keys, find_room-drop_room}

unfoldable pub is_placed_in : List Room → ℕ → Option ℕ → Bool
is_placed_in rooms apartment none = true
is_placed_in rooms apartment (some r) = is_some (find_room r apartment rooms)

unfoldable pub is_placed : List Room → Device → Bool
unfolding is_placed_in
is_placed rooms d = is_placed_in rooms d.apartment d.room

is_placed-Kept :
    (rooms rooms' : List Room) (d : Device)
    → Kept rooms rooms'
    → is_placed rooms d ≡ true
    → is_placed rooms' d ≡ true
unfolding is_placed is_placed_in
is_placed-Kept rooms rooms' d kept h = go d.room h
  where
    go :
        (room : Option ℕ)
        → is_placed_in rooms d.apartment room ≡ true
        → is_placed_in rooms' d.apartment room ≡ true
    go none h = refl
    go (some r) h = kept r d.apartment h

pub all_placed-Kept :
    (rooms rooms' : List Room) (ds : List Device)
    → Kept rooms rooms'
    → all (is_placed rooms) ds ≡ true
    → all (is_placed rooms') ds ≡ true
all_placed-Kept rooms rooms' [] kept h = refl
all_placed-Kept rooms rooms' (d ∷ ds) kept h =
    ground (arith, all_placed-Kept rooms rooms' ds kept, is_placed-Kept rooms rooms' d kept)

drop_room-is_placed_in :
    (room a : ℕ) (rooms : List Room) (o : Option ℕ)
    → is_in_room room o ≡ false
    → is_placed_in rooms a o ≡ true
    → is_placed_in (drop_room room rooms) a o ≡ true
unfolding is_placed_in
drop_room-is_placed_in room a rooms none out h = refl
drop_room-is_placed_in room a rooms (some r) out h =
    ground (arith, find_room-drop_room room r a rooms)

-- A room that is dropped is left by its devices.
pub drop_room-placed :
    (room : ℕ) (rooms : List Room) (ds : List Device)
    → all (is_placed rooms) ds ≡ true
    → all (is_placed (drop_room room rooms)) (leave_room room ds) ≡ true
unfolding leave_room is_placed is_placed_in
drop_room-placed room rooms [] h = refl
drop_room-placed room rooms (d ∷ ds) h = elim (Bool-cases (is_in_room room d.room)) [
  | inl here ↦ rw here (ground (arith, drop_room-placed room rooms ds))
  | inr away ↦ rw away (
      ground (
        arith,
        drop_room-placed room rooms ds,
        drop_room-is_placed_in room d.apartment rooms d.room away,
      ))
]

pub find_device-placed :
    (device apartment : ℕ) (rooms : List Room) (d : Device) (ds : List Device)
    → find_device device apartment ds ≡ some d
    → all (is_placed rooms) ds ≡ true
    → is_placed rooms d ≡ true
unfolding find_device
find_device-placed device apartment rooms d [] h all_in = cc
find_device-placed device apartment rooms d (e ∷ ds) h all_in =
    ground (arith, find_device-placed device apartment rooms d ds)

save_device-placed :
    (rooms : List Room) (e : Device) (ds : List Device)
    → is_placed rooms e ≡ true
    → all (is_placed rooms) ds ≡ true
    → all (is_placed rooms) (save_device e ds) ≡ true
unfolding save_device
save_device-placed rooms e [] h all_in = refl
save_device-placed rooms e (d ∷ ds) h all_in = ground (arith, save_device-placed rooms e ds)

pub map_devices-placed :
    (rooms : List Room) (apartment index : ℕ) (order : List ℕ) (ds : List Device)
    → all (is_placed rooms) ds ≡ true
    → all (is_placed rooms) (map (placed_device apartment index order) ds) ≡ true
unfolding is_placed
map_devices-placed rooms apartment index order [] h = refl
map_devices-placed rooms apartment index order (d ∷ ds) h =
    ground (arith, map_devices-placed rooms apartment index order ds)

-- What a patch makes of a device stands in a room of its apartment.
unfoldable pub StepPlaced : List Room → Step Device → Type 0
StepPlaced rooms (stop a) = Unit {0}
StepPlaced rooms (go_on d) = is_placed rooms d ≡ true

bind-StepPlaced :
    (rooms : List Room) (m : Step Device) (f : Device → Step Device)
    → StepPlaced rooms m
    → ((d : Device) → is_placed rooms d ≡ true → StepPlaced rooms (f d))
    → StepPlaced rooms (m >>= f)
unfolding StepPlaced
bind-StepPlaced rooms (stop a) f h k = tt
bind-StepPlaced rooms (go_on d) f h k = k d h

device_name-placed :
    (rooms : List Room) (name : Option Json) (d : Device)
    → is_placed rooms d ≡ true
    → StepPlaced rooms (device_name name d)
unfolding device_name StepPlaced is_placed
device_name-placed rooms none d h = h
device_name-placed rooms (some j) d h = elim (Bool-cases (eqb (strip (json_text j)) [])) [
  | inl empty ↦ rw empty tt
  | inr full ↦ rw full h
]

device_order-placed :
    (rooms : List Room) (order : Option Json) (d : Device)
    → is_placed rooms d ≡ true
    → StepPlaced rooms (device_order order d)
unfolding device_order StepPlaced is_placed
device_order-placed rooms none d h = h
device_order-placed rooms (some j) d h = go (json_int j)
  where
    go : (n : Option ℤ) → StepPlaced rooms (device_with_order n d)
    go none = tt
    go (some n) = h

device_room-placed :
    (rooms : List Room) (room : Option (Option ℕ)) (d : Device)
    → is_placed rooms d ≡ true
    → StepPlaced rooms (device_room room rooms d)
unfolding device_room StepPlaced is_placed is_placed_in
device_room-placed rooms none d h = h
device_room-placed rooms (some none) d h = refl
device_room-placed rooms (some (some id)) d h = go (find_room id d.apartment rooms) refl
  where
    go :
        (found : Option Room)
        → find_room id d.apartment rooms ≡ found
        → StepPlaced rooms (in_room found d)
    go none e = tt
    go (some r) e = ground (arith, find_room-keys id d.apartment r rooms)

pub patched_device-placed :
    (rooms : List Room) (b : DevicePatch) (d : Device)
    → is_placed rooms d ≡ true
    → StepPlaced rooms (patched_device b rooms d)
unfolding patched_device
patched_device-placed rooms b d h =
    bind-StepPlaced rooms (device_name b.name d)
      (λ n. device_room b.room_id rooms n >>= λ p. device_order b.sort_order p)
      (device_name-placed rooms b.name d h)
      (λ n hn.
        bind-StepPlaced rooms (device_room b.room_id rooms n) (λ p. device_order b.sort_order p)
          (device_room-placed rooms b.room_id n hn)
          (λ p hp. device_order-placed rooms b.sort_order p hp))

-- The ids of the rooms are distinct, and every device stands in a room of its own apartment or in none.
abbrev pub IsLaidOut : Layout → Type 0
IsLaidOut l = (are_keyed l.rooms ≡ true) × (all (is_placed l.rooms) l.devices ≡ true)

pub finish_device-IsLaidOut :
    (stores : ℤ → Bool) (s : Step Device) (l : Layout)
    → StepPlaced l.rooms s
    → IsLaidOut l
    → IsLaidOut (finish_device stores s l).1
unfolding finish_device StepPlaced
finish_device-IsLaidOut stores (stop a) l h laid = laid
finish_device-IsLaidOut stores (go_on d) l h laid = elim (Bool-cases (stores d.sort_order)) [
  | inl fits ↦ rw fits (laid.0, save_device-placed l.rooms d l.devices h laid.1)
  | inr big ↦ rw big laid
]
