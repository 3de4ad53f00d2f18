-- ===== src/Central/LateClients.antt =====
-- The reports of an API client's goroutines that come after the Gossiper has closed.
use gossip_protocol.Base.{
  ◌≡◌, ◌||◌, ◌&&◌, insert, lookup-insert_self, ◌-ℤ◌, -ℤ_parts, leb_ℤ, ℕ, pos, ltb_ℤ, not,
  Bool-cases, inl, inr, List, if◌then◌else◌, ◌∙◌, ap, refl, Bool, true, false, none, some, [], ◌∷◌,
  lookup, arith,
}
use gossip_protocol.Message.{
  Peer-Comparable, ApiClient-Comparable, ApiEndpoint, AnyMessage, gossiper_closed_msg,
  api_endpoint_closed_msg,
}
use gossip_protocol.Central.State.{
  Central, ApiInfo, EndpointState, both_running, running, stopped, Outcome, returns, check_done,
  have_both_stopped, stop_goroutine, decrement, decrement, send_gossiper, emit, im, Effect,
}
use gossip_protocol.Central.Closing.{
  api_endpoint_closed, api_settled, gossiper_closed_handler, api_endpoint_closed_handler,
}
use gossip_protocol.Central.Dispatch.{turn, dispatch}

-- A report of the goroutine that stops last sends to the Gossiper.
last_closed :
    (endp : ApiEndpoint) (is_reader : Bool) (info : ApiInfo) (t : EndpointState) (c : Central)
    → lookup endp.api_client c.api_clients ≡ some info
    → stop_goroutine is_reader info.state ≡ some t
    → have_both_stopped t ≡ true
    → c.gossiper ≡ false
    → api_endpoint_closed endp is_reader false c ≡ none
unfolding api_endpoint_closed send_gossiper
last_closed endp is_reader info t c h stop done gone =
    rw (h, stop, api_endpoint_closed) (rw (done, api_settled) (simp (gone, send_gossiper) refl))

-- The entry of a client of which one goroutine has stopped.
abbrev HalfStopped : ApiEndpoint → Bool → Central → Type 0
HalfStopped endp is_reader c =
    (info : ApiInfo) × (t : EndpointState) × (lookup endp.api_client c.api_clients ≡ some info)
    × (stop_goroutine (not is_reader) info.state ≡ some t)
    × (have_both_stopped t ≡ true)

-- The state in which one goroutine is left.
abbrev half : Bool → EndpointState
half true = record { reader_state = stopped; writer_state = running }
half false = record { reader_state = running; writer_state = stopped }

half-stop : (is_reader : Bool) → stop_goroutine is_reader both_running ≡ some (half is_reader)
unfolding stop_goroutine
half-stop true = refl
half-stop false = refl

half-goes_on : (is_reader : Bool) → have_both_stopped (half is_reader) ≡ false
unfolding have_both_stopped
half-goes_on true = refl
half-goes_on false = refl

half-stop_other :
    (is_reader : Bool)
    → (t : EndpointState) × (stop_goroutine (not is_reader) (half is_reader) ≡ some t)
      × (have_both_stopped t ≡ true)
unfolding stop_goroutine have_both_stopped
half-stop_other true = (record { reader_state = stopped; writer_state = stopped }, refl, refl)
half-stop_other false = (record { reader_state = stopped; writer_state = stopped }, refl, refl)

-- The entry and the state after the first report.
abbrev half_info : Bool → ApiInfo → ApiInfo
half_info is_reader info = record info {
  state = half is_reader;
  has_crashed = info.has_crashed || false;
}

abbrev half_closed : ApiEndpoint → Bool → ApiInfo → Central → Central
half_closed endp is_reader info c = record (decrement c) {
  api_clients = insert endp.api_client (half_info is_reader info) c.api_clients;
}

first_settled :
    (endp : ApiEndpoint) (is_reader : Bool) (info : ApiInfo) (c : Central)
    → (e : Central) × (api_settled endp (half_info is_reader info) c ≡ returns e)
      × (e.gossiper ≡ c.gossiper)
      × (e.api_clients ≡ c.api_clients)
unfolding api_settled emit
first_settled endp is_reader info c = elim (Bool-cases (info.has_crashed || false)) [
  | inl crashed ↦ (
    emit (Effect.close_api info.endpoint ∷ []) c,
    rw (half-goes_on is_reader, crashed) refl,
    refl,
    refl,
  )
  | inr fine ↦ (c, rw (half-goes_on is_reader, fine) refl, refl, refl)
]

first_closed :
    (endp : ApiEndpoint) (is_reader : Bool) (info : ApiInfo) (c : Central)
    → lookup endp.api_client c.api_clients ≡ some info
    → info.state ≡ both_running
    → (e : Central) × (api_endpoint_closed endp is_reader false c ≡ returns e)
      × (e.gossiper ≡ c.gossiper)
      × HalfStopped endp is_reader e
unfolding api_endpoint_closed decrement
first_closed endp is_reader info c listed runs =
    let stops : stop_goroutine is_reader info.state ≡ some (half is_reader) =
      ap (stop_goroutine is_reader) runs ∙ half-stop is_reader in
    let (e, settles, same, clients) =
      first_settled endp is_reader info (half_closed endp is_reader info c) in
    let (t, stops_other, done) = half-stop_other is_reader in
    (
      e,
      rw (listed, stops, api_endpoint_closed) settles,
      same,
      (
        half_info is_reader info,
        t,
        ap (lookup endp.api_client) clients
            ∙ lookup-insert_self endp.api_client (half_info is_reader info) c.api_clients,
        stops_other,
        done,
      ),
    )

-- The filter while the controller stops lets the three messages pass.
and_false : (b : Bool) (o p : Outcome) → (if b && false then o else p) ≡ p
and_false true o p = refl
and_false false o p = refl

-- Both goroutines of an API client run, and the Gossiper reports that it has closed; then the reports
-- of the two goroutines come, in either order. If so many goroutines are left that the first report is
-- not taken for the last one, the first two turns return, and the third one is a panic: it sends to
-- the Gossiper, which is nil by then.
pub api_endpoint_closed_panics :
    (perm : ℕ → List ℕ) (endp : ApiEndpoint) (is_reader : Bool) (info : ApiInfo) (c : Central)
    → lookup endp.api_client c.api_clients ≡ some info
    → info.state ≡ both_running
    → ltb_ℤ (pos 1) c.total_goroutines ≡ true
    → (d e : Central) × (turn perm (im gossiper_closed_msg AnyMessage.void_value) c ≡ returns d)
      × (turn perm (im api_endpoint_closed_msg (AnyMessage.api_endpoint_closed endp is_reader)) d
          ≡ returns e)
      × (turn perm
            (im api_endpoint_closed_msg (AnyMessage.api_endpoint_closed endp (not is_reader)))
            e
          ≡ none)
unfolding turn dispatch gossiper_closed_handler api_endpoint_closed_handler check_done decrement
api_endpoint_closed_panics perm endp is_reader info c listed runs many =
    let d : Central = record c {
      gossiper = false;
      total_goroutines = c.total_goroutines -ℤ pos 1;
    } in
    let goes_on : leb_ℤ (c.total_goroutines -ℤ pos 1) (pos 0) ≡ false =
      ground (arith, many, -ℤ_parts c.total_goroutines (pos 1)) in
    let (e, first, gone, (left, t, there, stops, done)) =
      first_closed endp is_reader info d listed runs in
    (
      d,
      e,
      and_false c.is_stopping _ _ ∙ rw goes_on refl,
      and_false d.is_stopping _ _ ∙ first,
      and_false e.is_stopping _ _ ∙ last_closed endp (not is_reader) left t e there stops done gone,
    )
