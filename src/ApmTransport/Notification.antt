-- ===== src/ApmTransport/Notification.antt =====
-- Notifications of the access point in APInterface/APMTransport.cpp are handed on once.
use apbridge.Prelude.{◌≡◌, true}
use apbridge.ApcProto.{ApcError}
use apbridge.ApcSerializer.{is_ok}
use apbridge.ApmTransport.State.{Transport, AptHdr}
use apbridge.ApmTransport.Receive.{Handlers, flag}

module _ (h : Handlers) (hdr : AptHdr) where
  -- If the result is no error, the packet number was noted.
  abbrev Noted : ApcError × Transport → Type 0
  Noted r = is_ok r.0 ≡ true → r.1.notif_packet_id ≡ flag 1 hdr.flags
