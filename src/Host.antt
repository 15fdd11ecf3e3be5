-- ===== src/Host.antt =====
-- yubiwallet-host/src/main.rs: the native-messaging host.
pub mod Frames
pub mod Accounts
pub mod Methods
pub mod Serve
