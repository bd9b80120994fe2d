-- ===== src/DtlsTransport/Handshake.antt =====
-- The handshake of dtls_transport.cpp: `Start`, `OnSSLInfo`, `ProcessDataFromPeer`, `OnTimerTimeout` and
-- what they call.
use Prim.Native.String.{String}
use webrtc_stream_server.Prelude.{
  ℕ, Bool, true, false, not, Option, none, some, List, [], ◌∷◌, ◌++◌, if◌then◌else◌, ◌==◌, ◌||◌,
  ◌&&◌,
}
use webrtc_stream_server.DtlsTransport.{
  Setup, active, passive, act_pass, unknown_setup, string_to_setup, Notice, Interaction, finished,
  notified, Ssl, DtlsTransport, Event, dtls_error, dtls_shutdown, send_data, async_wait,
}
use webrtc_stream_server.DtlsTransport.Keys.{is_active, setup_srtp}

unfoldable pub wait_for : Bool → Option ℕ → List Event
wait_for has_timer none = []
wait_for has_timer (some delay) = if has_timer then async_wait delay ∷ [] else []

-- The branches before that of the end of the handshake only log.
unfoldable pub is_done : Notice → Bool
is_done n =
    not (n.is_loop || (n.is_alert || (n.is_exit || n.is_handshake_start))) && n.is_handshake_done

module _ {S Cert : Type 0} (lib : Ssl S Cert) where
  unfoldable pub set_timeout : DtlsTransport S → S → List Event
  set_timeout t s = wait_for t.has_timer (lib.get_timeout s)

  unfoldable pub try_send_pending_data : S → S × List Event
  try_send_pending_data s =
      let (s', bytes) = lib.bio_read s in
      if lib.bio_pending s then (s', send_data bytes ∷ []) else (s, [])

  unfoldable pub check_pending : DtlsTransport S → S → S × List Event
  check_pending t s = let (s', sent) = try_send_pending_data s in (s', sent ++ set_timeout t s')

  unfoldable pub on_handshake_done : DtlsTransport S → S → List Event
  on_handshake_done t s =
      let (events, ok) = setup_srtp lib t s in
      if ok == 0 then events ++ (dtls_error ∷ []) else events

  unfoldable pub on_ssl_info : DtlsTransport S → S → Notice → S × List Event
  on_ssl_info t s n =
      let (s', checked) = check_pending t s in
      (s', (if is_done n then on_handshake_done t s else []) ++ checked)

  -- A call of OpenSSL with its notices: the state after it, the events, and whether it failed.
  unfoldable pub run : DtlsTransport S → Interaction S → S × (List Event × Bool)
  run t (finished s failed) = (s, ([], failed))
  run t (notified s n next) =
      let (s', events) = on_ssl_info t s n in
      let (s'', (later, failed)) = run t (next s') in (s'', (events ++ later, failed))

  unfoldable pub shake : DtlsTransport S → Option S → DtlsTransport S × (List Event × Bool)
  shake t none = (t, ([], false))
  shake t (some s) =
      let s' = if is_active t.setup then lib.set_connect_state s else lib.set_accept_state s in
      let (s'', (events, failed)) = run (record t { inited = true }) (lib.do_handshake s') in
      let t' : DtlsTransport S = record t { ssl = some s''; inited = true; has_timer = true } in
      (t', (events ++ set_timeout t' s'', true))

  -- The case of the active role falls through to the default.
  unfoldable pub start_as : DtlsTransport S → Option Setup → DtlsTransport S × (List Event × Bool)
  start_as t none = (t, ([], false))
  start_as t (some passive) = shake (record t { setup = active }) t.ssl
  start_as t (some act_pass) = shake (record t { setup = active }) t.ssl
  start_as t (some active) = (record t { setup = passive }, ([], false))
  start_as t (some unknown_setup) = (t, ([], false))

  unfoldable pub start : DtlsTransport S → String → DtlsTransport S × (List Event × Bool)
  start t setup_in_sdp = start_as t (string_to_setup setup_in_sdp)

  unfoldable pub receive : DtlsTransport S → S → List ℕ → DtlsTransport S × List Event
  receive t s buffer =
      let (s', (events, failed)) = run t (lib.ssl_read (lib.bio_write s buffer)) in
      let (s'', checked) = check_pending t s' in
      if lib.received_shutdown s''
      then (
        record t { ssl = some (lib.ssl_clear s'') },
        events ++ (checked ++ (dtls_shutdown ∷ [])),
      )
      else (record t { ssl = some s'' }, events ++ checked)

  unfoldable pub receive_on :
      DtlsTransport S → Option S → List ℕ → Option (DtlsTransport S × List Event)
  receive_on t none buffer = none
  receive_on t (some s) buffer = some (receive t s buffer)

  -- `none`: without a connection the library is called with a null pointer.
  unfoldable pub process_data_from_peer :
      DtlsTransport S → List ℕ → Option (DtlsTransport S × List Event)
  process_data_from_peer t buffer = receive_on t t.ssl buffer

  unfoldable pub expire : DtlsTransport S → S → DtlsTransport S × List Event
  expire t s =
      let (s', (events, failed)) = run t (lib.handle_timeout s) in
      let (s'', checked) = check_pending t s' in
      if failed
      then (record t { ssl = some s' }, events)
      else (record t { ssl = some s'' }, events ++ checked)

  unfoldable pub expire_on : DtlsTransport S → Option S → Option (DtlsTransport S × List Event)
  expire_on t none = none
  expire_on t (some s) = some (expire t s)

  unfoldable pub on_timer_timeout : DtlsTransport S → Option (DtlsTransport S × List Event)
  on_timer_timeout t = let fired = expire_on t t.ssl in if t.inited then fired else some (t, [])
