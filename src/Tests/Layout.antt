-- ===== src/Tests/Layout.antt =====
-- The layout of two apartments.
use phone_app.Base.{ℕ, ◌≡◌, refl, Bool, true, false, none, some, [], ◌∷◌, map, codes}
use phone_app.Base.Int.{ℤ, pos, negsuc}
use phone_app.Json.{json_int, text, number}
use phone_app.Accounts.{User, Db, ok, server_error}
use phone_app.Layout.{patch_room, Room, Device, Layout, find_room, reorder_rooms}
use phone_app.Layout.Devices.{
  LayoutCall, call_patch_device, call_patch_room, layout_call, in_apartment, reorder_devices,
}
use phone_app.Layout.Keyed.{are_keyed}
use phone_app.Layout.Orders.{placed_room, placed_device, reorder-map}
use phone_app.Layout.Placed.{is_placed, IsLaidOut}
use phone_app.Layout.Laid.{layout_call-IsLaidOut}

abbrev room : ℕ → ℕ → Room
room pk apartment = record {
  pk = pk;
  apartment = apartment;
  name = codes "Hall";
  sort_order = pos 0;
}

abbrev lamp : Device
lamp = record { pk = 5; apartment = 7; name = codes "Lamp"; room = some 1; sort_order = pos 0 }

abbrev layout : Layout
layout = record { rooms = room 1 7 ∷ room 2 7 ∷ room 3 8 ∷ []; devices = lamp ∷ [] }

abbrev admin : User
admin = record {
  pk = 2;
  username = codes "bob";
  email = [];
  first_name = [];
  is_active = true;
  is_staff = true;
  password = [];
}

abbrev db : Db ℕ
db = record {
  users = admin ∷ [];
  apartments = (record { pk = 7; name = codes "Loft"; building = []; floor = [] }) ∷ [];
  memberships = [];
  building_memberships = [];
  sessions = [];
  roles = [];
  permissions = [];
  tokens = 0;
}

-- The column takes what is not negative.
abbrev stores : ℤ → Bool
stores (pos n) = true
stores (negsuc n) = false

-- A negative order is an error of the server.
negative_order :
    in_apartment stores 7 (call_patch_room 1 none (some (number (negsuc 0)))) layout
    ≡ (server_error, layout)
unfolding in_apartment find_room patch_room json_int
negative_order = refl

abbrev move_lamp : LayoutCall
move_lamp =
    call_patch_device 5
      (record { name = none; room_id = some (some 2); sort_order = some (text (codes "4")) })

layout_call-IsLaidOut_example : IsLaidOut (layout_call stores db admin 7 move_lamp layout).1
unfolding are_keyed is_placed find_room
layout_call-IsLaidOut_example =
    layout_call-IsLaidOut stores db admin 7 move_lamp layout refl (refl, refl)

-- The list names room 2 twice, and a room of another apartment.
reorder-map_example :
    (reorder_rooms 7 (some (2 ∷ 3 ∷ 1 ∷ 2 ∷ [])) layout
      ≡ (ok, record layout { rooms = map (placed_room 7 0 (2 ∷ 3 ∷ 1 ∷ 2 ∷ [])) layout.rooms }))
    × (reorder_devices 7 (some (2 ∷ 3 ∷ 1 ∷ 2 ∷ [])) layout ≡ (
      ok,
      record layout { devices = map (placed_device 7 0 (2 ∷ 3 ∷ 1 ∷ 2 ∷ [])) layout.devices },
    ))
reorder-map_example = reorder-map 7 (2 ∷ 3 ∷ 1 ∷ 2 ∷ []) layout
