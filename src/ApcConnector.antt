-- ===== src/ApcConnector.antt =====
-- APInterface/APCConnector.h and APCConnector.cpp: one TCP connection to the manager. State has the
-- state and the output buffers, Send and Receive the two directions.
pub mod State
pub mod Send
pub mod Receive
pub mod Outgoing
pub mod Incoming
pub mod Stop
pub mod Examples
