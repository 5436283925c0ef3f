-- ===== src/Layout.antt =====
-- find_device/user_management_views.py: the rooms of an apartment and the names, rooms and order of its
-- devices. The ids in a body are numbers. `stores` says which numbers the database takes in the column
-- `sort_order`; a `save` with another raises, which no view catches.
pub mod Devices
pub mod Keyed
pub mod Orders
pub mod Placed
pub mod Laid
use phone_app.Base.{
  ℕ, zero, suc, ◌+◌, ◌-◌, ◌*◌, ◌≤◌, ◌<◌, ◌≡◌, ◌≢◌, ◌⊎◌, inl, inr, refl, sym, ap, ◌∙◌, Bool, true,
  false, not, ◌&&◌, ◌||◌, Option, none, some, List, [], ◌∷◌, ◌++◌, map, arith, tests, ltb, leb,
  ◌==◌, if◌then◌else◌, Bool-cases, Option-cases, Text, codes, eqb, length,
}
use phone_app.Base.{any, is_some, strip}
use phone_app.Base.Int.{ℤ, pos}
use phone_app.Json.{Json, json_text, json_int}
use phone_app.Accounts.{
  User, Db, Answer, ok, created, invalid_param, forbidden, not_found, duplicate, server_error,
  is_staff_or_building_owner, apartment_in_scope,
}

pub record Room : Type 0 where
  pub pk : ℕ
  pub apartment : ℕ
  pub name : Text
  pub sort_order : ℤ

-- `ApartmentDevice`, as far as these views change it.
pub record Device : Type 0 where
  pub pk : ℕ
  pub apartment : ℕ
  pub name : Text
  pub room : Option ℕ
  pub sort_order : ℤ

pub record Layout : Type 0 where
  pub rooms : List Room
  pub devices : List Device

unfoldable pub find_room : ℕ → ℕ → List Room → Option Room
find_room pk apartment [] = none
find_room pk apartment (r ∷ rs) =
    if r.pk == pk && r.apartment == apartment then some r else find_room pk apartment rs

unfoldable pub count_rooms : ℕ → List Room → ℕ
count_rooms apartment [] = 0
count_rooms apartment (r ∷ rs) =
    (if r.apartment == apartment then 1 else 0) + count_rooms apartment rs

-- `Room.objects.filter(apartment=..., name=...)`, and the same with `exclude(pk=...)`.
unfoldable pub has_room : ℕ → Text → List Room → Bool
has_room apartment name [] = false
has_room apartment name (r ∷ rs) =
    (r.apartment == apartment && eqb r.name name) || has_room apartment name rs

unfoldable pub has_other : ℕ → ℕ → Text → List Room → Bool
has_other pk apartment name [] = false
has_other pk apartment name (r ∷ rs) =
    (not (r.pk == pk) && (r.apartment == apartment && eqb r.name name))
    || has_other pk apartment name rs

unfoldable pub save_room : Room → List Room → List Room
save_room s [] = []
save_room s (r ∷ rs) = if r.pk == s.pk then s ∷ rs else r ∷ save_room s rs

unfoldable pub drop_room : ℕ → List Room → List Room
drop_room pk [] = []
drop_room pk (r ∷ rs) = if r.pk == pk then drop_room pk rs else r ∷ drop_room pk rs

-- `on_delete=SET_NULL`
abbrev pub is_in_room : ℕ → Option ℕ → Bool
is_in_room room none = false
is_in_room room (some r) = r == room

unfoldable pub leave_room : ℕ → List Device → List Device
leave_room room [] = []
leave_room room (d ∷ ds) =
    (if is_in_room room d.room then record d { room = none } else d) ∷ leave_room room ds

-- A handler goes on with the row that it has changed in memory, or returns.
pub data Step (A : Type 0) : Type 0 where
  stop : Answer → Step A
  go_on : A → Step A

unfoldable pub patch_name : Option Json → Room → List Room → Step Room
unfolding json_text has_other
patch_name none r rooms = go_on r
patch_name (some j) r rooms =
    let name = strip (json_text j) in
    if eqb name []
    then stop invalid_param
    else if has_other r.pk r.apartment name rooms
    then stop duplicate
    else go_on (record r { name = name })

abbrev pub with_order : Option ℤ → Room → Step Room
with_order none r = stop invalid_param
with_order (some n) r = go_on (record r { sort_order = n })

unfoldable pub patch_order : Option Json → Room → Step Room
patch_order none r = go_on r
patch_order (some j) r = with_order (json_int j) r

abbrev pub then_order : Option Json → Step Room → Step Room
then_order order (stop a) = stop a
then_order order (go_on r) = patch_order order r

unfoldable pub finish_room : (ℤ → Bool) → Step Room → Layout → Answer × Layout
finish_room stores (stop a) l = (a, l)
finish_room stores (go_on r) l =
    if stores r.sort_order
    then (ok, record l { rooms = save_room r l.rooms })
    else (server_error, l)

unfoldable pub delete_room : Room → Layout → Answer × Layout
unfolding drop_room leave_room
delete_room r l =
    (ok, record l { rooms = drop_room r.pk l.rooms; devices = leave_room r.pk l.devices })

-- The handlers of one room, once it is found.
unfoldable pub patch_room :
    (ℤ → Bool) → Option Json → Option Json → Option Room → Layout → Answer × Layout
unfolding finish_room patch_name patch_order
patch_room stores name order none l = (not_found, l)
patch_room stores name order (some r) l =
    finish_room stores (then_order order (patch_name name r l.rooms)) l

unfoldable pub delete_found : Option Room → Layout → Answer × Layout
unfolding delete_room
delete_found none l = (not_found, l)
delete_found (some r) l = delete_room r l

-- `apartment_rooms` with POST; `new` is the id of the new row.
unfoldable pub create_room : ℕ → ℕ → Option Text → Layout → Answer × Layout
unfolding has_room count_rooms
create_room new apartment name l =
    let given = strip (elim name [ none ↦ [] | some t ↦ t ]) in
    if eqb given []
    then (invalid_param, l)
    else if has_room apartment given l.rooms
    then (duplicate, l)
    else (
      created,
      record l {
        rooms =
            l.rooms
            ++ (record {
              pk = new;
              apartment = apartment;
              name = given;
              sort_order = pos (count_rooms apartment l.rooms);
            })
              ∷ [];
      },
    )

-- `apartment_rooms_reorder`: the loop over `enumerate(order)`.
unfoldable pub set_order : ℕ → ℕ → ℕ → List Room → List Room
set_order apartment index room [] = []
set_order apartment index room (r ∷ rs) =
    (if r.pk == room && r.apartment == apartment then record r { sort_order = pos index } else r)
    ∷ set_order apartment index room rs

unfoldable pub reorder_from : ℕ → ℕ → List ℕ → List Room → List Room
unfolding set_order
reorder_from apartment index [] rooms = rooms
reorder_from apartment index (room ∷ order) rooms =
    reorder_from apartment (index + 1) order (set_order apartment index room rooms)

unfoldable pub reorder_rooms : ℕ → Option (List ℕ) → Layout → Answer × Layout
unfolding reorder_from
reorder_rooms apartment none l = (invalid_param, l)
reorder_rooms apartment (some order) l =
    (ok, record l { rooms = reorder_from apartment 0 order l.rooms })
