-- ===== src/Access/Defaults.antt =====
-- The default apartment of a user: `ApartmentMembership.save`.
use phone_app.Base.{
  ℕ, suc, ◌+◌, ◌≤◌, ◌<◌, ◌≡◌, ◌≢◌, ◌⊎◌, inl, inr, refl, true, false, ◌&&◌, List, [], ◌∷◌, arith,
  ◌==◌, if◌then◌else◌, Bool-cases,
}
use phone_app.Access.{Membership, clear_defaults, write_row, save_membership}

-- How many default rows a user has.
abbrev pub count_defaults : ℕ → List Membership → ℕ
count_defaults user [] = 0
count_defaults user (m ∷ ms) =
    (if m.user == user && m.is_default then 1 else 0) + count_defaults user ms

-- The keys of the table: ascending, so no key stands twice.
abbrev pub Keyed : ℕ → List Membership → Type 0
Keyed lo [] = Unit
Keyed lo (m ∷ ms) = (lo ≤ m.pk) × Keyed (suc m.pk) ms

count_cleared :
    (user pk lo : ℕ) (ms : List Membership)
    → Keyed lo ms
    → pk < lo
    → count_defaults user (clear_defaults user pk ms) ≡ 0
unfolding clear_defaults
count_cleared user pk lo [] k h = refl
count_cleared user pk lo (m ∷ ms) k h = ground (arith, count_cleared user pk (suc m.pk) ms k.1)

-- A default row that is saved becomes the user's only one.
count_saved :
    (m : Membership) (lo : ℕ) (ms : List Membership)
    → Keyed lo ms
    → m.is_default ≡ true
    → count_defaults m.user (write_row m (clear_defaults m.user m.pk ms)) ≡ 1
unfolding write_row clear_defaults
count_saved m lo [] k d = ground arith
count_saved m lo (n ∷ ms) k d =
    ground (arith, count_saved m (suc n.pk) ms k.1 d, count_cleared m.user m.pk (suc n.pk) ms k.1)

count_written :
    (m : Membership) (user : ℕ) (ms : List Membership)
    → (m.is_default ≡ false) ⊎ (user ≢ m.user)
    → count_defaults user (write_row m ms) ≤ count_defaults user ms
unfolding write_row
count_written m user [] h = ground arith
count_written m user (n ∷ ms) h = ground (arith, count_written m user ms h)

count_cleared_other :
    (user other pk : ℕ) (ms : List Membership)
    → other ≢ user
    → count_defaults other (clear_defaults user pk ms) ≡ count_defaults other ms
unfolding clear_defaults
count_cleared_other user other pk [] h = refl
count_cleared_other user other pk (m ∷ ms) h =
    ground (arith, count_cleared_other user other pk ms h)

-- In a table in the order of its keys, where the user of a row has at most one default row, that
-- is so after the row is saved, and a default row that is saved is then the user's only one;
-- another user gets no further default row.
pub save_membership_defaults :
    (m : Membership) (other lo : ℕ) (ms : List Membership)
    → Keyed lo ms
    → count_defaults m.user ms ≤ 1
    → other ≢ m.user
    → (count_defaults m.user (save_membership m ms) ≤ 1)
      × ((m.is_default ≡ false) ⊎ (count_defaults m.user (save_membership m ms) ≡ 1))
      × (count_defaults other (save_membership m ms) ≤ count_defaults other ms)
unfolding save_membership
save_membership_defaults m other lo ms keyed one ne = elim (Bool-cases m.is_default) [
  | inl yes_default ↦
      let cleared = clear_defaults m.user m.pk ms in
      ground (
        arith,
        count_saved m lo ms keyed yes_default,
        count_written m other cleared (inr ne),
        count_cleared_other m.user other m.pk ms ne,
      )
  | inr not_default ↦
      ground (arith, count_written m m.user ms (inl not_default), count_written m other ms (inr ne))
]
