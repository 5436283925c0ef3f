-- ===== src/Tests/Server.antt =====
-- Runs of the event bus, the rate limiter, the access rules and the heartbeat task.
use phone_app.Heartbeat.{Device}
use phone_app.RateLimit.{Request}
use phone_app.EventBus.{
  new_bus, put, publish_connection, send_heartbeat, broadcast, publish_event, call_connection,
  register_client, connection_change, call_heartbeat, publish, bus_step, heartbeat, call_register,
  find_queue, bus_run, variable_change, call_publish, Bus, get_queue, Event, BusCall,
}
use phone_app.Base.{
  any, is_in, ℕ, ◌≡◌, refl, true, false, ◌||◌, none, some, List, [], ◌∷◌, arith, Text, codes,
}
use phone_app.EventBus.Order.{IsFair, bus_run-IsFair}
use phone_app.RateLimit.Window.{serve, spec_serve, serve-eq-spec_serve}
use phone_app.Access.Grants.{
  is_grant, is_membership, gives, resolve_permissions_lem, registry_or_error_reach,
}
use phone_app.Access.{
  resolve_membership, membership_codes, resolve_permissions, registry_or_error, Membership, Grant,
  Tables, owner, installer,
}

abbrev ann : Text
ann = codes "ann"

abbrev bus_calls : List (BusCall ℕ)
bus_calls =
    call_publish 1 (codes "lamp") 0 none 10
    ∷ call_register ann
    ∷ call_publish 1 (codes "lamp") 1 none 11
    ∷ call_heartbeat 12
    ∷ call_connection 1 false (codes "ERROR") 13
    ∷ []

abbrev ann_queue : List (Event ℕ)
ann_queue =
    variable_change 1 (codes "lamp") 1 11 2
    ∷ heartbeat 12
    ∷ connection_change 1 false (codes "ERROR") 13 3
    ∷ []

bus_run-IsFair_example : IsFair (bus_run bus_calls new_bus).event_count ann_queue
unfolding get_queue bus_run bus_step register_client publish publish_event broadcast send_heartbeat
    publish_connection put find_queue
bus_run-IsFair_example = bus_run-IsFair bus_calls ann refl

abbrev small_bus : Bus ℕ
small_bus = record { client_queues = (ann, ann_queue) ∷ []; event_count = 3 }

abbrev arrivals : List (ℕ × ℕ)
arrivals = (0, 2) ∷ (10, 2) ∷ (20, 2) ∷ (60_001, 2) ∷ []

serve-eq-spec_serve_example : serve 60_000 arrivals [] ≡ spec_serve 60_000 arrivals []
serve-eq-spec_serve_example = serve-eq-spec_serve 60_000 arrivals (ground arith)

abbrev reading : Request
reading = record {
  path = codes "/plc/status/";
  is_post = false;
  forwarded_for = none;
  remote_addr = some (codes "10.0.0.9");
}

abbrev login : Request
login = record {
  path = codes "/auth/login/";
  is_post = true;
  forwarded_for = some (codes "127.0.0.1, 203.0.113.7");
  remote_addr = some (codes "172.18.0.5");
}

abbrev installer_row : Membership
installer_row = record {
  pk = 1;
  user = 5;
  apartment = 3;
  role = installer;
  custom_role = none;
  extra_permissions = [];
  is_default = true;
}

abbrev new_row : Membership
new_row = record installer_row { pk = 2; apartment = 4; role = owner }

abbrev visit : Grant
visit = record {
  user = 6;
  apartment = 3;
  role_codes = codes "view" ∷ [];
  starts_at = 100;
  expires_at = 200;
  revoked = false;
}

abbrev db : Tables
db = record { apartments = 3 ∷ 4 ∷ []; memberships = installer_row ∷ []; grants = visit ∷ [] }

resolve_permissions_lem_example : is_in (codes "view") (resolve_permissions db 6 3 150) ≡ (
    is_in (codes "view") (membership_codes (resolve_membership 6 3 db.memberships))
    || any (gives 6 3 150 (codes "view")) db.grants)
resolve_permissions_lem_example = resolve_permissions_lem db 6 3 150 (codes "view")

registry_or_error_reach_example :
    (any (is_membership 6 3) db.memberships || any (is_grant 6 3 150) db.grants) ≡ true
unfolding registry_or_error
registry_or_error_reach_example = registry_or_error_reach db 6 150 3 refl

abbrev running : Device
running = record { down_since = none; last_seen_at = some 940 }

abbrev lost : Device
lost = record { down_since = some 1000; last_seen_at = some 940 }
