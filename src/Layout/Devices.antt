-- ===== src/Layout/Devices.antt =====
-- find_device/user_management_views.py: `apartment_device_detail` and `apartment_devices_reorder`, and the
-- calls of this component behind their permission class and scope.
use phone_app.Base.{
  ℕ, ◌+◌, Bool, ◌&&◌, Option, none, some, List, [], ◌∷◌, ◌==◌, if◌then◌else◌, Text, eqb,
}
use phone_app.Base.{is_some, strip}
use phone_app.Base.Int.{ℤ, pos}
use phone_app.Json.{Json, json_text, json_int}
use phone_app.Accounts.{
  User, Db, Answer, ok, invalid_param, forbidden, not_found, server_error,
  is_staff_or_building_owner, apartment_in_scope,
}
use phone_app.Layout.{
  Room, Device, Layout, find_room, Step, stop, go_on, create_room, patch_room, delete_found,
  reorder_rooms,
}

unfoldable pub find_device : ℕ → ℕ → List Device → Option Device
find_device pk apartment [] = none
find_device pk apartment (d ∷ ds) =
    if d.pk == pk && d.apartment == apartment then some d else find_device pk apartment ds

unfoldable pub save_device : Device → List Device → List Device
save_device e [] = []
save_device e (d ∷ ds) = if d.pk == e.pk then e ∷ ds else d ∷ save_device e ds

unfoldable pub device_name : Option Json → Device → Step Device
unfolding json_text
device_name none d = go_on d
device_name (some j) d =
    let name = strip (json_text j) in
    if eqb name [] then stop invalid_param else go_on (record d { name = name })

-- `room_id` is missing, null or an id.
abbrev pub in_room : Option Room → Device → Step Device
in_room none d = stop not_found
in_room (some r) d = go_on (record d { room = some r.pk })

unfoldable pub device_room : Option (Option ℕ) → List Room → Device → Step Device
unfolding find_room
device_room none rooms d = go_on d
device_room (some none) rooms d = go_on (record d { room = none })
device_room (some (some id)) rooms d = in_room (find_room id d.apartment rooms) d

abbrev pub device_with_order : Option ℤ → Device → Step Device
device_with_order none d = stop invalid_param
device_with_order (some n) d = go_on (record d { sort_order = n })

unfoldable pub device_order : Option Json → Device → Step Device
device_order none d = go_on d
device_order (some j) d = device_with_order (json_int j) d

infixl 5 ◌>>=◌
abbrev pub ◌>>=◌ : {A B : Type 0} → Step A → (A → Step B) → Step B
stop a >>= f = stop a
go_on a >>= f = f a

unfoldable pub finish_device : (ℤ → Bool) → Step Device → Layout → Answer × Layout
finish_device stores (stop a) l = (a, l)
finish_device stores (go_on d) l =
    if stores d.sort_order
    then (ok, record l { devices = save_device d l.devices })
    else (server_error, l)

-- What a body of `apartment_device_detail` asks for.
pub record DevicePatch : Type 0 where
  pub name : Option Json
  pub room_id : Option (Option ℕ)
  pub sort_order : Option Json

unfoldable pub patched_device : DevicePatch → List Room → Device → Step Device
unfolding device_name device_room device_order
patched_device b rooms d = do
  named ← device_name b.name d
  placed ← device_room b.room_id rooms named
  device_order b.sort_order placed

unfoldable pub patch_device : (ℤ → Bool) → DevicePatch → Option Device → Layout → Answer × Layout
unfolding finish_device patched_device
patch_device stores b none l = (not_found, l)
patch_device stores b (some d) l = finish_device stores (patched_device b l.rooms d) l

unfoldable pub set_device_order : ℕ → ℕ → ℕ → List Device → List Device
set_device_order apartment index device [] = []
set_device_order apartment index device (d ∷ ds) =
    (if d.pk == device && d.apartment == apartment then record d { sort_order = pos index } else d)
    ∷ set_device_order apartment index device ds

unfoldable pub reorder_devices_from : ℕ → ℕ → List ℕ → List Device → List Device
unfolding set_device_order
reorder_devices_from apartment index [] devices = devices
reorder_devices_from apartment index (device ∷ order) devices =
    reorder_devices_from apartment (index + 1) order
      (set_device_order apartment index device devices)

unfoldable pub reorder_devices : ℕ → Option (List ℕ) → Layout → Answer × Layout
unfolding reorder_devices_from
reorder_devices apartment none l = (invalid_param, l)
reorder_devices apartment (some order) l =
    (ok, record l { devices = reorder_devices_from apartment 0 order l.devices })

-- The calls that change the layout of an apartment.
pub data LayoutCall : Type 0 where
  call_create_room : ℕ → Option Text → LayoutCall
  call_patch_room : ℕ → Option Json → Option Json → LayoutCall
  call_delete_room : ℕ → LayoutCall
  call_reorder_rooms : Option (List ℕ) → LayoutCall
  call_patch_device : ℕ → DevicePatch → LayoutCall
  call_reorder_devices : Option (List ℕ) → LayoutCall

unfoldable pub in_apartment : (ℤ → Bool) → ℕ → LayoutCall → Layout → Answer × Layout
unfolding find_device
in_apartment stores apartment (call_create_room new name) l = create_room new apartment name l
in_apartment stores apartment (call_patch_room room name order) l =
    patch_room stores name order (find_room room apartment l.rooms) l
in_apartment stores apartment (call_delete_room room) l =
    delete_found (find_room room apartment l.rooms) l
in_apartment stores apartment (call_reorder_rooms order) l = reorder_rooms apartment order l
in_apartment stores apartment (call_patch_device device b) l =
    patch_device stores b (find_device device apartment l.devices) l
in_apartment stores apartment (call_reorder_devices order) l = reorder_devices apartment order l

unfoldable pub layout_call :
    {W : Type 0} → (ℤ → Bool) → Db W → User → ℕ → LayoutCall → Layout → Answer × Layout
unfolding in_apartment
layout_call stores db caller apartment call l =
    if is_staff_or_building_owner caller db
    then if is_some (apartment_in_scope caller apartment db)
      then in_apartment stores apartment call l
      else (not_found, l)
    else (forbidden, l)
