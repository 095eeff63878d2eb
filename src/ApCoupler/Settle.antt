-- ===== src/ApCoupler/Settle.antt =====
-- How the clock source of the access point comes to rest in APInterface/APCoupler.cpp.
use apbridge.Prelude.{
  ℕ, ◌≡◌, ◌≢◌, refl, Bool, true, false, [], ◌∷◌, none, some, arith, if◌then◌else◌, ◌==◌,
  ne→==-false, ==→eq, ==-false→ne, Bool-cases, ◌⊎◌, inl, inr, ◌∙◌,
}
use apbridge.ApmTransport.State.{cmd_setparam}
use apbridge.ApmSerializer.{param_ap_clksrc}
use apbridge.ApCoupler.State.{
  Call, insert_msg, handle_set_clk_src_response, handle_set_clk_src_error_response, ApClockSource,
  internal, network, pps, mngrset, World, Coupler, clksource_none,
}
use apbridge.ApCoupler.Send.{send_set_ap_clk_source, send_set_param, insert}
use apbridge.ApCoupler.Clock.{
  choose_source, permanent_source, current_source, with_clksource, clk_source_pps, clk_source_auto,
  clk_source_internal, clk_source_network,
}

-- The property that the access point has to keep.
unfoldable pub kept : ApClockSource → ℕ
kept pps = clk_source_pps
kept _ = clk_source_auto

-- The source that it then has to use.
unfoldable pub used : ApClockSource → Bool → ℕ
used internal is_int_clk = clk_source_internal
used network is_int_clk = clk_source_network
used pps is_int_clk = clk_source_pps
used mngrset true = clk_source_internal
used mngrset false = clk_source_network

unfoldable pub set_clock : ℕ → Bool → Call
set_clock source is_reset =
    insert_msg cmd_setparam (param_ap_clksrc ∷ source ∷ []) false
      (if is_reset then some handle_set_clk_src_response else none)
      (some handle_set_clk_src_error_response)

stores :
    (w : World) (is_int_clk : Bool) (source : ApClockSource) (c : Coupler)
    → c.ap_clk_source ≡ source
    → c.has_transport ≡ true
    → c.ap_info.clksource ≢ clksource_none
    → c.ap_info.clksource ≢ kept source
    → choose_source w is_int_clk c
      ≡ record (with_clksource (kept source) c) { calls = set_clock (kept source) true ∷ c.calls }
unfolding choose_source permanent_source current_source send_set_ap_clk_source send_set_param insert
    kept set_clock
stores w b internal c e set told new = rw (e, set, ne→==-false _ _ told, ne→==-false _ _ new) refl
stores w b network c e set told new = rw (e, set, ne→==-false _ _ told, ne→==-false _ _ new) refl
stores w b pps c e set told new = rw (e, set, ne→==-false _ _ told, ne→==-false _ _ new) refl
stores w b mngrset c e set told new = rw (e, set, ne→==-false _ _ told, ne→==-false _ _ new) refl

-- The state after a call for an access point that keeps the property already.
unfoldable pub settled : ApClockSource → Bool → Coupler → Coupler
settled pps is_int_clk c = c
settled source is_int_clk c = record (with_clksource (used source is_int_clk) c) {
  calls = set_clock (used source is_int_clk) false ∷ c.calls;
}

rests :
    (w : World) (is_int_clk : Bool) (source : ApClockSource) (c : Coupler)
    → c.ap_clk_source ≡ source
    → c.has_transport ≡ true
    → c.ap_info.clksource ≡ kept source
    → choose_source w is_int_clk c ≡ settled source is_int_clk c
unfolding choose_source permanent_source current_source send_set_ap_clk_source send_set_param insert
    kept used set_clock settled
rests w b internal c e set there = rw (e, set, there) refl
rests w b network c e set there = rw (e, set, there) refl
rests w b pps c e set there = rw (e, set, there) refl
rests w true mngrset c e set there = rw (e, set, there) refl
rests w false mngrset c e set there = rw (e, set, there) refl

source_stays :
    (w : World) (b : Bool) (c : Coupler) → (choose_source w b c).ap_clk_source ≡ c.ap_clk_source
unfolding choose_source send_set_ap_clk_source send_set_param insert
source_stays w b c = ground arith

transport_stays :
    (w : World) (b : Bool) (c : Coupler) → (choose_source w b c).has_transport ≡ c.has_transport
unfolding choose_source send_set_ap_clk_source send_set_param insert
transport_stays w b c = ground arith

-- The access point has told its clock source, and there is a transport. Either it keeps the property
-- already that the configured source wants, or it is asked to keep it and is reset when it has it. If it
-- tells that property at the next connection, it is not reset again: with GPS nothing is sent, and
-- otherwise it is told the source for the time being, the internal one or the network, as configured
-- or as the manager's flag says.
pub choose_source-Settled :
    (w : World) (is_int_clk next_is_int_clk : Bool) (c : Coupler)
    → c.has_transport ≡ true
    → c.ap_info.clksource ≢ clksource_none
    → ((c.ap_info.clksource ≡ kept c.ap_clk_source)
        ⊎ (choose_source w is_int_clk c ≡ record (with_clksource (kept c.ap_clk_source) c) {
          calls = set_clock (kept c.ap_clk_source) true ∷ c.calls;
        }))
      × (choose_source w next_is_int_clk
            (with_clksource (kept c.ap_clk_source) (choose_source w is_int_clk c))
          ≡ settled c.ap_clk_source next_is_int_clk
              (with_clksource (kept c.ap_clk_source) (choose_source w is_int_clk c)))
choose_source-Settled w b b' c set told = (
  elim (Bool-cases (c.ap_info.clksource == kept c.ap_clk_source)) [
    | inl there ↦ inl (==→eq _ _ there)
    | inr new ↦ inr (stores w b _ c refl set told (==-false→ne _ _ new))
  ],
  rests w b' c.ap_clk_source _ (source_stays w b c) (transport_stays w b c ∙ set) refl,
)
