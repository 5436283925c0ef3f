-- ===== src/Tests/Notifications.antt =====
-- Runs of the notification manager, with a PLC that hands out numbers and one that refuses.
use phone_app.Ads.State.{other, exception, value, plc_bool}
use phone_app.Base.{true, some, [], suc, ◌∷◌, false, codes, ℕ, List, Text}
use phone_app.Notifications.{
  call_restore, call_unsubscribe, call_subscribe, new_manager, ManagerCall, Manager, manager_run,
  Notifier,
}
use phone_app.Notifications.Invariant.{AgreesAt, manager_run-AgreesAt}

abbrev numbering : Notifier ℕ
numbering = record {
  add_notification = λ var t ms w. (value w, suc w);
  del_notification = λ h w. w;
}

abbrev refusing : Notifier ℕ
refusing = record {
  add_notification = λ var t ms w. (exception (other (codes "lost")), w);
  del_notification = λ h w. w;
}

abbrev door : Text
door = codes "door"

abbrev manager_calls : List ManagerCall
manager_calls =
    call_subscribe door plc_bool 1 200
    ∷ call_subscribe door plc_bool 2 200
    ∷ call_unsubscribe door (some 1)
    ∷ call_restore
    ∷ []

manager_run-AgreesAt_example :
    AgreesAt door (manager_run numbering manager_calls (new_manager false) 5).0
manager_run-AgreesAt_example = manager_run-AgreesAt numbering manager_calls false 5 door

-- What a failed restoration leaves.
abbrev unrestored : Manager
unrestored = record {
  mock = false;
  subscriptions = (door, 1 ∷ []) ∷ [];
  handles = [];
  type_map = (door, plc_bool) ∷ [];
  running = true;
}
