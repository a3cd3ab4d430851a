-- ===== src/Web.antt =====
-- cpp/webmanager_base.hh: the pages of the web server that log in and out and administrate users.
pub mod Http
pub mod Login
pub mod Admin
pub mod Cases
pub mod Access
pub mod LastAdmin
pub mod SignIn
pub mod Accounts
pub mod Socket
pub mod Handshake
pub mod Dispatch
pub mod Delivery
mod Tests
mod SocketTests
