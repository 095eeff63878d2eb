-- ===== src/ApcCache/Examples.antt =====
-- The theorems on APInterface/APCCache.cpp at a cache of two packets, of which three were sent.
use apbridge.Prelude.{◌≡◌, ◌%◌, ◌^◌, refl, false, List, [], ◌∷◌, some, arith}
use apbridge.ApcProto.{apc_net_tx, apc_ka, apc_err_protocol}
use apbridge.ApcCache.{
  ApcCache, empty_pkt, clear, add_packet, confirmed_seq_num, prep_for_get, fill_pkt,
}
use apbridge.ApcCache.Ring.{Sent}
use apbridge.ApcCache.Add.{Added, sent_of, add_packet-Holds}
use apbridge.ApcCache.Confirm.{Confirmed, confirmed_seq_num-Confirmed, confirmed_seq_num_unsent}
use apbridge.ApcCache.Replay.{drain, recent, drain-prep_for_get}
use apbridge.ApcCache.Session.{Reach, cleared, added, Reach-Holds}

abbrev pub fresh : ApcCache
fresh = record {
  outpkts = empty_pkt ∷ empty_pkt ∷ [];
  last_sent_seq_num = 7;
  num_packets = 1;
  pos = 1;
  get_next_seq_num = 3;
}

abbrev pub empty : ApcCache
empty = clear fresh

abbrev pub one : ApcCache
one = (add_packet empty apc_net_tx (1 ∷ []) (2 ∷ [])).2

abbrev pub two : ApcCache
two = (add_packet one apc_ka [] []).2

abbrev pub three : ApcCache
three = (add_packet two apc_net_tx (3 ∷ []) []).2

abbrev pub history : List Sent
history =
    sent_of two apc_net_tx (3 ∷ []) []
    ∷ sent_of one apc_ka [] []
    ∷ sent_of empty apc_net_tx (1 ∷ []) (2 ∷ [])
    ∷ []

pub sent_three : three.last_sent_seq_num ≡ 3
unfolding add_packet clear fill_pkt
sent_three = refl

two_kept : three.num_packets ≡ 2
unfolding add_packet clear fill_pkt
two_kept = refl

pub Reach-three : Reach three history
Reach-three =
    added two _ apc_net_tx (3 ∷ []) []
      (added one _ apc_ka [] []
        (added empty [] apc_net_tx (1 ∷ []) (2 ∷ []) (cleared fresh (omega arith) (omega arith))
          (omega arith) (unfold clear in omega arith))
        (omega arith) (unfold add_packet clear fill_pkt in omega arith))
      (omega arith) (unfold add_packet clear fill_pkt in omega arith)

add_packet-Holds_example :
    Added three history
      (sent_of three apc_ka (5 ∷ []) (6 ∷ []))
      (add_packet three apc_ka (5 ∷ []) (6 ∷ []))
add_packet-Holds_example =
    add_packet-Holds three history apc_ka (5 ∷ []) (6 ∷ []) (Reach-Holds three history Reach-three)
      (omega arith) (omega (arith, sent_three))

confirmed_seq_num-Confirmed_example :
    Confirmed three history 2 false (confirmed_seq_num three (2 % 2 ^ 32) false)
confirmed_seq_num-Confirmed_example =
    confirmed_seq_num-Confirmed three history 2 false (Reach-Holds three history Reach-three)
      (omega (arith, sent_three)) (omega (arith, sent_three))

confirmed_seq_num_unsent_example : confirmed_seq_num three 4 false ≡ (apc_err_protocol, three)
confirmed_seq_num_unsent_example =
    confirmed_seq_num_unsent three 4 false (omega arith) (omega (arith, sent_three))

drain-prep_for_get_example : drain 3 (prep_for_get three) ≡ some (recent three.num_packets history)
drain-prep_for_get_example =
    drain-prep_for_get three history 3 (Reach-Holds three history Reach-three)
      (omega (arith, two_kept))
