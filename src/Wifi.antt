-- ===== src/Wifi.antt =====
-- cpp/webmanager.hh: the Wi-Fi variant of the web manager.
pub mod Device
pub mod State
pub mod Config
pub mod Events
pub mod Requests
pub mod Supervision
pub mod Deadline
pub mod Reach
pub mod Watch
pub mod Storage
pub mod Answers
mod Tests
