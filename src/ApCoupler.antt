-- ===== src/ApCoupler.antt =====
-- `CAPCoupler` of APInterface/APCoupler.h and APCoupler.cpp: what passes between the access point
-- and the manager, and the state machine that joins them.
pub mod State
pub mod Send
pub mod Inputs
pub mod GpsInputs
pub mod Clock
pub mod Time
pub mod Machine
pub mod Control
pub mod Session
pub mod Resets
pub mod Day
pub mod Settle
pub mod Restarts
pub mod Header
pub mod LateJoin
pub mod Examples
