-- ===== src/Devices.antt =====
-- find_device/plc/devices.py.
pub mod Levels
pub mod Wire
pub mod Dali
pub mod Relays
pub mod Curtain
pub mod Inputs
pub mod Memory
pub mod Protocol
pub mod Fade
