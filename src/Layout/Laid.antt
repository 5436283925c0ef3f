-- ===== src/Layout/Laid.antt =====
-- The calls of this component: what they keep.
use phone_app.Base.{
  ℕ, ◌≡◌, inl, inr, refl, ap, ◌∙◌, Bool, true, Option, none, some, List, [], ◌∷◌, ◌++◌, map,
  Bool-cases, Text, eqb,
}
use phone_app.Base.{is_some, strip}
use phone_app.Base.Int.{ℤ, pos}
use phone_app.Json.{Json, json_int, json_text}
use phone_app.Accounts.{User, Db, is_staff_or_building_owner, apartment_in_scope}
use phone_app.Layout.{
  Room, Device, Layout, Step, stop, go_on, find_room, save_room, patch_name, patch_order,
  with_order, then_order, finish_room, delete_room, patch_room, delete_found, create_room,
  reorder_rooms, has_other, has_room, count_rooms,
}
use phone_app.Layout.Devices.{
  find_device, patched_device, patch_device, reorder_devices, LayoutCall, call_create_room,
  call_patch_room, call_delete_room, call_reorder_rooms, call_patch_device, call_reorder_devices,
  in_apartment, layout_call,
}
use phone_app.Layout.Orders.{placed_room, reorder_from-map, reorder_devices_from-map}
use phone_app.Layout.Keyed.{
  lacks, append-Kept, find_room-keys, save_room-Kept, are_keyed-save_room, are_keyed-drop_room,
  are_keyed-append, are_keyed-map, map-Kept,
}
use phone_app.Layout.Placed.{
  all_placed-Kept, drop_room-placed, find_device-placed, map_devices-placed, patched_device-placed,
  IsLaidOut, finish_device-IsLaidOut,
}

-- What a patch makes of a room keeps its id and its apartment.
unfoldable StepKeys : Room → Step Room → Type 0
StepKeys r (stop a) = Unit {0}
StepKeys r (go_on s) = (s.pk ≡ r.pk) × (s.apartment ≡ r.apartment)

patch_name-StepKeys :
    (name : Option Json) (r : Room) (rooms : List Room) → StepKeys r (patch_name name r rooms)
unfolding patch_name StepKeys
patch_name-StepKeys none r rooms = (refl, refl)
patch_name-StepKeys (some j) r rooms = elim (Bool-cases (eqb (strip (json_text j)) [])) [
  | inl empty ↦ rw empty tt
  | inr full ↦ rw full (elim (Bool-cases (has_other r.pk r.apartment (strip (json_text j)) rooms)) [
    | inl taken ↦ rw taken tt
    | inr free ↦ rw free (refl, refl)
  ])
]

then_order-StepKeys :
    (order : Option Json) (r : Room) (s : Step Room)
    → StepKeys r s
    → StepKeys r (then_order order s)
unfolding patch_order StepKeys
then_order-StepKeys order r (stop a) h = tt
then_order-StepKeys none r (go_on s) h = h
then_order-StepKeys (some j) r (go_on s) h = go (json_int j)
  where
    go : (n : Option ℤ) → StepKeys r (with_order n s)
    go none = tt
    go (some n) = h

finish_room-IsLaidOut :
    (stores : ℤ → Bool) (r : Room) (s : Step Room) (l : Layout)
    → StepKeys r s
    → is_some (find_room r.pk r.apartment l.rooms) ≡ true
    → IsLaidOut l
    → IsLaidOut (finish_room stores s l).1
unfolding finish_room StepKeys
finish_room-IsLaidOut stores r (stop a) l keys found laid = laid
finish_room-IsLaidOut stores r (go_on s) l keys found laid =
    elim (Bool-cases (stores s.sort_order)) [
      | inr big ↦ rw big laid
      | inl fits ↦
          let there : is_some (find_room s.pk s.apartment l.rooms) ≡ true =
            ap (λ k. is_some (find_room k s.apartment l.rooms)) keys.0
            ∙ ap (λ k. is_some (find_room r.pk k l.rooms)) keys.1
            ∙ found in
          rw fits (
            are_keyed-save_room s l.rooms laid.0,
            all_placed-Kept l.rooms (save_room s l.rooms) l.devices
                (λ room a h. save_room-Kept s l.rooms room a laid.0 there h) laid.1,
          )
    ]

patch_room-IsLaidOut :
    (stores : ℤ → Bool) (name order : Option Json) (room apartment : ℕ) (found : Option Room)
    (l : Layout)
    → find_room room apartment l.rooms ≡ found
    → IsLaidOut l
    → IsLaidOut (patch_room stores name order found l).1
unfolding patch_room
patch_room-IsLaidOut stores name order room apartment none l e laid = laid
patch_room-IsLaidOut stores name order room apartment (some r) l e laid =
    let keys = find_room-keys room apartment r l.rooms e in
    let there : is_some (find_room r.pk r.apartment l.rooms) ≡ true =
      ap (λ k. is_some (find_room k r.apartment l.rooms)) keys.0
      ∙ ap (λ k. is_some (find_room room k l.rooms)) keys.1
      ∙ ap is_some e in
    finish_room-IsLaidOut stores r (then_order order (patch_name name r l.rooms)) l
      (then_order-StepKeys order r (patch_name name r l.rooms) (patch_name-StepKeys name r l.rooms))
      there laid

delete_found-IsLaidOut :
    (found : Option Room) (l : Layout) → IsLaidOut l → IsLaidOut (delete_found found l).1
unfolding delete_found delete_room
delete_found-IsLaidOut none l laid = laid
delete_found-IsLaidOut (some r) l laid =
    (are_keyed-drop_room r.pk l.rooms laid.0, drop_room-placed r.pk l.rooms l.devices laid.1)

create_room-IsLaidOut :
    (new apartment : ℕ) (name : Option Text) (l : Layout)
    → lacks new l.rooms ≡ true
    → IsLaidOut l
    → IsLaidOut (create_room new apartment name l).1
unfolding create_room
create_room-IsLaidOut new apartment name l fresh laid =
    let given = strip (elim name [ none ↦ [] | some t ↦ t ]) in
    elim (Bool-cases (eqb given [])) [
      | inl empty ↦ rw empty laid
      | inr full ↦ rw full (elim (Bool-cases (has_room apartment given l.rooms)) [
        | inl taken ↦ rw taken laid
        | inr free ↦
            let r : Room = record {
              pk = new;
              apartment = apartment;
              name = given;
              sort_order = pos (count_rooms apartment l.rooms);
            } in
            rw free (
              are_keyed-append r l.rooms laid.0 fresh,
              all_placed-Kept l.rooms (l.rooms ++ r ∷ []) l.devices (append-Kept l.rooms r) laid.1,
            )
      ])
    ]

-- The id of a room that a call creates is new.
abbrev pub has_new_id : LayoutCall → Layout → Bool
has_new_id (call_create_room new name) l = lacks new l.rooms
has_new_id (call_patch_room room name order) l = true
has_new_id (call_delete_room room) l = true
has_new_id (call_reorder_rooms order) l = true
has_new_id (call_patch_device device b) l = true
has_new_id (call_reorder_devices order) l = true

in_apartment-IsLaidOut :
    (stores : ℤ → Bool) (apartment : ℕ) (call : LayoutCall) (l : Layout)
    → has_new_id call l ≡ true
    → IsLaidOut l
    → IsLaidOut (in_apartment stores apartment call l).1
unfolding in_apartment reorder_rooms reorder_devices patch_device
in_apartment-IsLaidOut stores apartment (call_create_room new name) l fresh laid =
    create_room-IsLaidOut new apartment name l fresh laid
in_apartment-IsLaidOut stores apartment (call_patch_room room name order) l fresh laid =
    patch_room-IsLaidOut stores name order room apartment (find_room room apartment l.rooms) l refl
      laid
in_apartment-IsLaidOut stores apartment (call_delete_room room) l fresh laid =
    delete_found-IsLaidOut (find_room room apartment l.rooms) l laid
in_apartment-IsLaidOut stores apartment (call_reorder_rooms none) l fresh laid = laid
in_apartment-IsLaidOut stores apartment (call_reorder_rooms (some order)) l fresh laid =
    rw (reorder_from-map apartment 0 order l.rooms) (
      are_keyed-map apartment 0 order l.rooms ∙ laid.0,
      all_placed-Kept l.rooms (map (placed_room apartment 0 order) l.rooms) l.devices
          (map-Kept apartment 0 order l.rooms) laid.1,
    )
in_apartment-IsLaidOut stores apartment (call_patch_device device b) l fresh laid =
    go (find_device device apartment l.devices) refl
  where
    go :
        (found : Option Device)
        → find_device device apartment l.devices ≡ found
        → IsLaidOut (patch_device stores b found l).1
    go none e = laid
    go (some d) e =
        finish_device-IsLaidOut stores (patched_device b l.rooms d) l
          (patched_device-placed l.rooms b d
            (find_device-placed device apartment l.rooms d l.devices e laid.1))
          laid
in_apartment-IsLaidOut stores apartment (call_reorder_devices none) l fresh laid = laid
in_apartment-IsLaidOut stores apartment (call_reorder_devices (some order)) l fresh laid =
    rw (reorder_devices_from-map apartment 0 order l.devices)
      (laid.0, map_devices-placed l.rooms apartment 0 order l.devices laid.1)

-- Any call that changes the rooms or the devices of an apartment, of any caller and with any answer, keeps
-- the ids of the rooms distinct and every device in a room of its own apartment or in none, where a room
-- that is created gets a new id.
pub layout_call-IsLaidOut :
    {W : Type 0} (stores : ℤ → Bool) (db : Db W) (caller : User) (apartment : ℕ) (call : LayoutCall)
    → (l : Layout) → has_new_id call l ≡ true
    → IsLaidOut l
    → IsLaidOut (layout_call stores db caller apartment call l).1
unfolding layout_call
layout_call-IsLaidOut stores db caller apartment call l fresh laid =
    elim (Bool-cases (is_staff_or_building_owner caller db)) [
      | inr denied ↦ rw denied laid
      | inl allowed ↦
          rw allowed (elim (Bool-cases (is_some (apartment_in_scope caller apartment db))) [
            | inr missing ↦ rw missing laid
            | inl there ↦ rw there (in_apartment-IsLaidOut stores apartment call l fresh laid)
          ])
    ]
