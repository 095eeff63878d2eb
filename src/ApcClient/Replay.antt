-- ===== src/ApcClient/Replay.antt =====
-- The loop of `apcConnected` of APInterface/APCClient.cpp against the cache of APInterface/APCCache.cpp.
use mathlib.Core.Option
use apbridge.Prelude.{
  ℕ, zero, suc, ◌≡◌, refl, sym, ap, ◌∙◌, subst, true, false, List, [], ◌∷◌, Option, none, some,
  if◌then◌else◌, take, Bool-cases, Option-cases, inl, inr,
}
use apbridge.ApcProto.{ApcError, apc_ok}
use apbridge.ApcSerializer.{is_ok}
use apbridge.ApcCache.{ApcCache, CachePkt, get_next_packet}
use apbridge.ApcCache.Ring.{Sent, view}
use apbridge.ApcCache.Replay.{drain}
use apbridge.ApcCache.Session.{Reach, gotten}
use apbridge.ApcClient.State.{Event, World, Client, conn_send, emit}
use apbridge.ApcClient.Notices.{resend, replay}

-- The packets of a list are sent through a connector, the first one first.
unfoldable pub resent : ℕ → List (ApcError × Sent) → List Event → List Event
resent id [] es = es
resent id ((err, s) ∷ l) es = resent id l (conn_send id s.type 0 s.number s.bytes [] ∷ es)

-- What a replay of a list of packets is, complete or cut short by an error.
pub record Replayed (w : World) (id : ℕ) (l : List (ApcError × Sent)) (c : Client)
    (r : ApcError × Client) : Type 0 where
  pub count : ℕ
  pub client : r.1 ≡ (record c { cache = r.1.cache; events = resent id (take count l) c.events })
  pub complete : is_ok r.0 ≡ true → take count l ≡ l
  pub works : ((es : List Event) → w.sends es ≡ apc_ok) → is_ok r.0 ≡ true
  pub reach : (history : List Sent) → Reach c.cache history → Reach r.1.cache history

-- The client after a packet of its cache was sent.
abbrev after_send : ℕ → CachePkt → Client → Client
after_send id pkt c =
    emit (conn_send id pkt.msg_type 0 pkt.seq_numb (take pkt.size pkt.payload) [])
      (record c { cache = (get_next_packet c.cache).2 })

drain_end : (fuel : ℕ) (c : ApcCache) → (get_next_packet c).1 ≡ none → drain (suc fuel) c ≡ some []
unfolding drain
drain_end fuel c e = rw (e, drain) refl

drain_more :
    (fuel : ℕ) (c : ApcCache) (pkt : CachePkt)
    → (get_next_packet c).1 ≡ some pkt
    → drain (suc fuel) c
      ≡ Option.map (λ l. ((get_next_packet c).0, view pkt) ∷ l) (drain fuel (get_next_packet c).2)
unfolding drain
drain_more fuel c pkt e = rw (e, drain) refl

some-inj : {A : Type 0} (a b : A) → some a ≡ some b → a ≡ b
some-inj a b e = cc

map-eq_some :
    (o : Option (List (ApcError × Sent))) (x : ApcError × Sent) (l : List (ApcError × Sent))
    → Option.map (λ l. x ∷ l) o ≡ some l
    → (l' : List (ApcError × Sent)) × (o ≡ some l') × (l ≡ x ∷ l')
map-eq_some none x l e = cc
map-eq_some (some l') x l e = (l', refl, sym (some-inj (x ∷ l') l e))

true_ne_false : true ≡ false → ⊥
true_ne_false e = cc

module _ (w : World) (id : ℕ) where
  replay_end :
      (fuel : ℕ) (c : Client)
      → (get_next_packet c.cache).1 ≡ none
      → replay w (suc fuel) c ≡ some (apc_ok, record c { cache = (get_next_packet c.cache).2 })
  unfolding replay
  replay_end fuel c e = rw (e, replay) refl

  replay_more :
      (fuel : ℕ) (c : Client) (pkt : CachePkt)
      → c.connector ≡ some id
      → (get_next_packet c.cache).1 ≡ some pkt
      → replay w (suc fuel) c ≡ (
          if is_ok (w.sends c.events)
          then replay w fuel (after_send id pkt c)
          else some (w.sends c.events, after_send id pkt c))
  unfolding replay
  replay_more fuel c pkt at e = rw (e, replay, sent) refl
    where
      sent :
          resend w c.connector pkt (record c { cache = (get_next_packet c.cache).2 })
          ≡ (w.sends c.events, after_send id pkt c)
      sent =
          unfold resend in
          ap (λ (o : Option ℕ). resend w o pkt (record c { cache = (get_next_packet c.cache).2 }))
            at

  sent_first :
      (c : Client) (pkt : CachePkt) (err : ApcError) (l : List (ApcError × Sent))
      → (r : ApcError × Client) → Replayed w id l (after_send id pkt c) r
      → Replayed w id ((err, view pkt) ∷ l) c r
  unfolding resent
  sent_first c pkt err l r v = record {
    count = suc v.count;
    client = v.client;
    complete = λ done. ap (λ (m : List (ApcError × Sent)). (err, view pkt) ∷ m) (v.complete done);
    works = v.works;
    reach = λ h reached. v.reach h (gotten c.cache h reached);
  }

  cut_short :
      (c : Client) (pkt : CachePkt) (err : ApcError) (l : List (ApcError × Sent)) (res : ApcError)
      → is_ok res ≡ false
      → res ≡ w.sends c.events
      → Replayed w id ((err, view pkt) ∷ l) c (res, after_send id pkt c)
  unfolding resent
  cut_short c pkt err l res failed came = record {
    count = 1;
    client = refl;
    complete = λ done. absurd (true_ne_false (sym done ∙ failed));
    works = λ all. ap is_ok (came ∙ all c.events);
    reach = λ h reached. gotten c.cache h reached;
  }

  -- The replay sends what the loop over the cache gives.
  pub replay-drain :
      (fuel : ℕ) (c : Client) (l : List (ApcError × Sent))
      → c.connector ≡ some id
      → drain fuel c.cache ≡ some l
      → (r : ApcError × Client) × (replay w fuel c ≡ some r) × Replayed w id l c r
  unfolding resent
  replay-drain zero c l at d = unfold drain in cc
  replay-drain (suc fuel) c l at d = elim (Option-cases (get_next_packet c.cache).1) [
    | inl end ↦ (
      (apc_ok, record c { cache = (get_next_packet c.cache).2 }),
      replay_end fuel c end,
      record {
        count = 0;
        client = refl;
        complete = λ _. some-inj [] l (sym (drain_end fuel c.cache end) ∙ d);
        works = λ all. refl;
        reach = λ h v. gotten c.cache h v;
      },
    )
    | inr (pkt, more) ↦
        (let (l', d', same) =
            map-eq_some (drain fuel (get_next_packet c.cache).2) _ l
              (sym (drain_more fuel c.cache pkt more) ∙ d) in
          elim (Bool-cases (is_ok (w.sends c.events))) [
            | inl ok ↦
                (let (r, same_run, v) = replay-drain fuel (after_send id pkt c) l' at d' in
                  (
                    r,
                    replay_more fuel c pkt at more ∙ rw ok same_run,
                    subst (λ (m : List (ApcError × Sent)). Replayed w id m c r) (sym same)
                        (sent_first c pkt _ l' r v),
                  ))
            | inr failed ↦ (
              (w.sends c.events, after_send id pkt c),
              replay_more fuel c pkt at more ∙ rw failed refl,
              subst
                  (λ (m : List (ApcError × Sent)).
                    Replayed w id m c (w.sends c.events, after_send id pkt c))
                  (sym same) (cut_short c pkt _ l' (w.sends c.events) failed refl),
            )
          ])
  ]
