-- ===== src/Tests.antt =====
-- Concrete PLCs, clients and tables, and runs of the program on them.
pub mod Plc
pub mod Ads
pub mod Devices
pub mod Server
pub mod Lights
pub mod SuperScan
pub mod Notifications
pub mod Modbus
pub mod Registry
pub mod Automations
pub mod Tokens
pub mod Accounts
pub mod Realtime
pub mod Alarms
pub mod Layout
