-- ===== src/Layout/Keyed.antt =====
-- Which rooms are found after a change of the table, and that their ids stay distinct.
use phone_app.Base.{
  ℕ, ◌≡◌, ◌≢◌, inl, inr, refl, Bool, true, not, ◌&&◌, none, some, List, [], ◌∷◌, ◌++◌, map, arith,
  ◌==◌, Bool-cases,
}
use phone_app.Base.{all, is_some, subst}
use phone_app.Layout.{Room, find_room, save_room, drop_room}
use phone_app.Layout.Orders.{placed_room}

-- No two rooms have one id.
abbrev pub lacks : ℕ → List Room → Bool
lacks pk rs = all (λ r. not (r.pk == pk)) rs

unfoldable pub are_keyed : List Room → Bool
are_keyed [] = true
are_keyed (r ∷ rs) = lacks r.pk rs && are_keyed rs

-- Every room that was found is still found.
abbrev pub Kept : List Room → List Room → Type 0
Kept rooms rooms' =
    (room a : ℕ)
    → is_some (find_room room a rooms) ≡ true
    → is_some (find_room room a rooms') ≡ true

pub append-Kept : (rooms : List Room) (r : Room) → Kept rooms (rooms ++ r ∷ [])
unfolding find_room
append-Kept [] r room a h = cc
append-Kept (s ∷ rooms) r room a h = ground (arith, append-Kept rooms r room a)

pub find_room-keys :
    (pk apartment : ℕ) (r : Room) (rooms : List Room)
    → find_room pk apartment rooms ≡ some r
    → (r.pk ≡ pk) × (r.apartment ≡ apartment)
unfolding find_room
find_room-keys pk apartment r [] h = cc
find_room-keys pk apartment r (s ∷ rooms) h = ground (arith, find_room-keys pk apartment r rooms)

pub find_room-lacks :
    (pk apartment : ℕ) (rooms : List Room)
    → lacks pk rooms ≡ true
    → find_room pk apartment rooms ≡ none
unfolding find_room
find_room-lacks pk apartment [] h = refl
find_room-lacks pk apartment (s ∷ rooms) h = ground (arith, find_room-lacks pk apartment rooms)

-- A save of a row that is there, under its id and apartment.
pub save_room-Kept :
    (s : Room) (rooms : List Room) (room a : ℕ)
    → are_keyed rooms ≡ true
    → is_some (find_room s.pk s.apartment rooms) ≡ true
    → is_some (find_room room a rooms) ≡ true
    → is_some (find_room room a (save_room s rooms)) ≡ true
unfolding find_room save_room are_keyed
save_room-Kept s [] room a keyed found h = cc
save_room-Kept s (r ∷ rooms) room a keyed found h = elim (Bool-cases (r.pk == s.pk)) [
  | inl same ↦ ground (
    arith,
    find_room-lacks s.pk s.apartment rooms (lacks_at r.pk s.pk rooms (ground arith) (ground arith)),
  )
  | inr other ↦ ground (arith, save_room-Kept s rooms room a)
]
  where
    lacks_at : (p q : ℕ) (rooms : List Room) → p ≡ q → lacks p rooms ≡ true → lacks q rooms ≡ true
    lacks_at p q rooms e h = subst (λ k. lacks k rooms ≡ true) (e) h

pub lacks-save_room :
    (pk : ℕ) (s : Room) (rooms : List Room)
    → lacks pk rooms ≡ true
    → lacks pk (save_room s rooms) ≡ true
unfolding save_room
lacks-save_room pk s [] h = refl
lacks-save_room pk s (r ∷ rooms) h = ground (arith, lacks-save_room pk s rooms)

pub are_keyed-save_room :
    (s : Room) (rooms : List Room) → are_keyed rooms ≡ true → are_keyed (save_room s rooms) ≡ true
unfolding save_room are_keyed
are_keyed-save_room s [] h = refl
are_keyed-save_room s (r ∷ rooms) h =
    ground (arith, are_keyed-save_room s rooms, lacks-save_room r.pk s rooms)

pub lacks-drop_room :
    (pk room : ℕ) (rooms : List Room)
    → lacks pk rooms ≡ true
    → lacks pk (drop_room room rooms) ≡ true
unfolding drop_room
lacks-drop_room pk room [] h = refl
lacks-drop_room pk room (r ∷ rooms) h = ground (arith, lacks-drop_room pk room rooms)

pub are_keyed-drop_room :
    (room : ℕ) (rooms : List Room)
    → are_keyed rooms ≡ true
    → are_keyed (drop_room room rooms) ≡ true
unfolding drop_room are_keyed
are_keyed-drop_room room [] h = refl
are_keyed-drop_room room (r ∷ rooms) h =
    ground (arith, are_keyed-drop_room room rooms, lacks-drop_room r.pk room rooms)

pub lacks-append :
    (pk : ℕ) (r : Room) (rooms : List Room)
    → lacks pk (rooms ++ r ∷ []) ≡ (lacks pk rooms && not (r.pk == pk))
lacks-append pk r [] = ground arith
lacks-append pk r (s ∷ rooms) = ground (arith, lacks-append pk r rooms)

pub are_keyed-append :
    (r : Room) (rooms : List Room)
    → are_keyed rooms ≡ true
    → lacks r.pk rooms ≡ true
    → are_keyed (rooms ++ r ∷ []) ≡ true
unfolding are_keyed
are_keyed-append r [] h new = refl
are_keyed-append r (s ∷ rooms) h new =
    ground (arith, are_keyed-append r rooms, lacks-append s.pk r rooms)

pub lacks-map :
    (pk apartment index : ℕ) (order : List ℕ) (rooms : List Room)
    → lacks pk (map (placed_room apartment index order) rooms) ≡ lacks pk rooms
lacks-map pk apartment index order [] = refl
lacks-map pk apartment index order (r ∷ rooms) =
    ground (arith, lacks-map pk apartment index order rooms)

pub are_keyed-map :
    (apartment index : ℕ) (order : List ℕ) (rooms : List Room)
    → are_keyed (map (placed_room apartment index order) rooms) ≡ are_keyed rooms
unfolding are_keyed
are_keyed-map apartment index order [] = refl
are_keyed-map apartment index order (r ∷ rooms) =
    ground
      (arith, are_keyed-map apartment index order rooms, lacks-map r.pk apartment index order rooms)

pub map-Kept :
    (apartment index : ℕ) (order : List ℕ) (rooms : List Room)
    → Kept rooms (map (placed_room apartment index order) rooms)
unfolding find_room
map-Kept apartment index order [] room a h = cc
map-Kept apartment index order (r ∷ rooms) room a h =
    ground (arith, map-Kept apartment index order rooms room a)

pub find_room-drop_room :
    (room other a : ℕ) (rooms : List Room)
    → other ≢ room
    → find_room other a (drop_room room rooms) ≡ find_room other a rooms
unfolding find_room drop_room
find_room-drop_room room other a [] ne = refl
find_room-drop_room room other a (r ∷ rooms) ne =
    ground (arith, find_room-drop_room room other a rooms)
