-- ===== src/Users.antt =====
-- cpp/webmanager_base.hh: the user accounts.
pub mod Record
pub mod Form
pub mod Secrets
pub mod Platform
pub mod Store
pub mod Memory
mod Tests
