-- ===== src/ApCoupler/LateJoin.antt =====
-- The end of the wait for a connection in APInterface/APCoupler.cpp.
use apbridge.ApCoupler.Inputs
