-- ===== src/ApcClient.antt =====
-- `CAPCClient` of APInterface/APCClient.h and APCClient.cpp: the session with the manager, which
-- outlives a connection.
pub mod State
pub mod Send
pub mod Notices
pub mod Control
pub mod Replay
pub mod Restore
pub mod Invariant
pub mod Session
pub mod Offline
pub mod Sending
pub mod Examples
