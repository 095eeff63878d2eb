-- ===== src/ApmTransport.antt =====
-- APInterface/APMTransport.h and APMTransport.cpp: the transport to the access point, which sends
-- one command at a time and repeats it until it is answered. State has the state, Send the side
-- that sends, Join the connection and the timers, and Receive the side that receives.
pub mod State
pub mod Send
pub mod Join
pub mod Receive
pub mod Invariant
pub mod Session
pub mod Notification
pub mod Retry
pub mod Response
pub mod Fifo
pub mod Examples
