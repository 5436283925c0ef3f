-- ===== src/Ads.antt =====
-- find_device/plc/ads_client.py.
pub mod State
pub mod Io
pub mod Connect
pub mod Steps
pub mod Invariant
pub mod Failures
pub mod Reconnect
