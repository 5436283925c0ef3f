-- ===== src/Lib.antt =====
-- The PLC side of the smart-building server: a Django program that reads and drives the Beckhoff
-- PLC of each apartment over ADS, and serves the state and the commands to a mobile app.
--
-- How the parts work together. A request passes the rate limiter, then the permission guards of the
-- views pick the one apartment that the signed-in user may reach. The registry of that apartment
-- has one ADS client, which owns the connection, a Modbus client as a second path to the lights and
-- relays, and the device classes, built from the rows of the database, which translate commands
-- such as a brightness into reads and writes of PLC variables. A rule of the database can tie an
-- input to an output: the registry subscribes to the input and writes to the output. A periodic
-- task polls the registries and publishes the values to a cache and over the event bus, which the
-- streams of the clients take from; further tasks evaluate alarms on the cache, watch the PLC,
-- report outages and switch lights at sunset. Accounts are managed by the staff and by the owners
-- of buildings; a session row stands for each refresh token of SimpleJWT. A scan reads every known
-- device of an apartment and, in its active modes, tests those that can be written to.
--
-- Files and the code they model:
--   Base                 numbers, lists, texts and integers that the parts share
--   Ads                  find_device/plc/ads_client.py, `class ADSClient`: State (fields, errors, the
--                        interface of pyads), Io (read, write, batches, handles), Connect (connect,
--                        disconnect, route repair, reconnect thread), Steps (sequences of calls)
--   Devices              find_device/plc/devices.py: Levels (percentages and DALI levels), Wire,
--                        Dali, Relays, Curtain, Inputs (also the security controller)
--   Modbus               find_device/plc/modbus_client.py, `class ModbusClient`: the connection and its
--                        reconnect thread; Points (the register map and the reads and writes), Calls
--                        (sequences of calls)
--   Registry             find_device/plc/registry.py, `class DeviceRegistry`: Loading (rows and address
--                        schemes of find_device/models.py), Fallback (ADS first, then Modbus), Poll
--                        (batch reads and the state that the app polls), Fades (the tokens of fades),
--                        FadeThreads (the threads that have them),
--                        RawInputs (all physical inputs)
--   Automations          the automation rules: find_device/plc/registry.py (subscriptions, the dispatch of a
--                        sample), Actions (`_execute_automation`), Rules and Changes
--                        (find_device/automation_views.py)
--   EventBus             find_device/realtime/event_bus.py
--   RateLimit            find_device/middleware.py, `RateLimitMiddleware`
--   Access               find_device/permissions.py, memberships and grants of find_device/models.py,
--                        the guards `_registry_or_error` and `_require_permission` of
--                        find_device/views.py
--   Accounts             the accounts: scopes of find_device/permissions.py, Sessions (tokens and sessions) and
--                        Profiles of find_device/auth_views.py, Managing and Assigning (users and their
--                        apartments) of find_device/user_management_views.py, Places (apartments),
--                        Settings (the building settings)
--   Layout               find_device/user_management_views.py: the rooms of an apartment, and Devices: its
--                        devices' names, rooms and order
--   Realtime             find_device/realtime/views.py: the cache and the counters, Streams (opening,
--                        generator and snapshot)
--   Alarms               find_device/tasks.py, `check_alarms`, and Polling: `poll_plc_state`
--   Json                 the scalar values of request bodies
--   Heartbeat            find_device/tasks.py, `check_plc_heartbeat`
--   Lights               find_device/tasks.py, the sunset override, and the Christmas chase of
--                        find_device/lighting_effects.py
--   Notifications        find_device/plc/ads_notifications.py, `class NotificationManager`
--   SuperScan            find_device/superscan.py: the rows of a scan; Active has the tests that write
--                        to the devices, Objects the device classes that they call, Deep the pass
--                        over unknown symbols and the whole scan
--   Tests                concrete PLCs, tables and requests
-- Modules below these, such as Ads.Invariant or RateLimit.Window, prove what is listed at the end.
--
-- How it is modelled. pyads, the clock and the environment are a record `Pyads W` of functions over
-- a state `W` of the outside world; nothing is supposed of them but what `Devices.Memory.Memory`
-- names: a write that pyads accepts sets the named variable and no other. `Pymodbus W` is the same
-- for pymodbus, over the same `W`, and `Format` is Python's `str.format`. In the same way
-- `Notifier` stands for the notification calls of pyads, and `Devices` in SuperScan.Active for the
-- device objects of the registry, with `Obedient` for devices that do what they are told in the
-- ranges of their commands, which SuperScan.Mocked proves of the device classes on a mock client;
-- `Outputs` and `Accepting` do that for the lights of the sunset override. `Jwt` is SimpleJWT with
-- its blacklist and the check of credentials, `JwtLaws` what is supposed of it, `Auth` the password
-- hasher and validators, and `Broker` the queue of Celery. A method of the client takes and returns
-- the client and the world, and its exceptions are values, so the state at the time of an exception
-- is kept. Each method is the code under its lock; threads appear as sequences of calls. The state
-- of a module, such as the times of the alarms, is that of one worker process. Values of the PLC
-- are numbers and Booleans, not floats. Times are whole milliseconds in Ads and RateLimit, and
-- whole seconds in EventBus, Realtime, Alarms and Heartbeat. The two float conversions of levels
-- are exact integer divisions, which agree with the floats on all percentages and levels in range;
-- the float interpolation of a fade is a parameter. Texts are lists of code points. The reconnect
-- thread has 1025 units of fuel, enough because its back-off overflows at attempt 1024, and so does
-- that of Modbus. A rate-limit bucket is a list of times, the oldest first, as in the deque.
--
-- Not modelled: the HTTP views apart from those named above, the models apart from the columns used
-- here, the connection settings of an apartment, the check of credentials and access tokens,
-- administration, network discovery, diagnostics, logging, and the Flutter application.
pub mod Base
pub mod Access
pub mod Accounts
pub mod Ads
pub mod Alarms
pub mod Automations
pub mod Devices
pub mod EventBus
pub mod Heartbeat
pub mod Json
pub mod Layout
pub mod Lights
pub mod Modbus
pub mod Notifications
pub mod RateLimit
pub mod Realtime
pub mod Registry
pub mod SuperScan
pub mod Tests
