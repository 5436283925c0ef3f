-- ===== src/Tests/Ads.antt =====
-- Runs of the ADS client on the small PLC.
use phone_app.Ads.Connect.{out_of_fuel, reconnect_loop}
use phone_app.Ads.State.{AdsClient, bool, plc_bool, new_client}
use phone_app.Ads.Steps.{
  call_wake, call_disconnect, call_write, call_get_handle, call_connect, call_read, run, Call,
}
use phone_app.Base.{◌≢◌, false, none, List, [], ◌∷◌, Text, codes}
use phone_app.Ads.Invariant.{IsValid, run-new_client-IsValid}
use phone_app.Ads.Reconnect.{reconnect_loop_terminates}
use phone_app.Tests.Plc.{plc, world, dark_world, fresh}

abbrev lamp : Text
lamp = codes "lamp"

abbrev calls : List Call
calls =
    call_read lamp plc_bool
    ∷ call_connect
    ∷ call_get_handle lamp
    ∷ call_write lamp (bool false) plc_bool
    ∷ call_disconnect
    ∷ call_wake
    ∷ []

run-new_client-IsValid_example :
    IsValid (run plc calls (new_client (codes "5.1.2.3.1.1") (codes "10.0.0.2") false none) world).0
run-new_client-IsValid_example =
    run-new_client-IsValid plc (codes "5.1.2.3.1.1") (codes "10.0.0.2") false none calls world

reconnect_loop_terminates_example : (reconnect_loop plc 1025 0 fresh dark_world).0 ≢ out_of_fuel
reconnect_loop_terminates_example = reconnect_loop_terminates plc fresh dark_world

-- The last repair was 100 seconds ago.
abbrev repaired : AdsClient
repaired = record fresh { last_route_repair_attempt = 600_000 }
