-- ===== src/WebrtcTransport/Connection/Events.antt =====
-- The suites that the DTLS transport reports are always ones that the SRTP session knows.
use Prim.Native.String.{String}
use webrtc_stream_server.Prelude.{
  ℕ, ◌≡◌, Bool, true, false, Option, none, some, List, [], ◌∷◌, ◌++◌, if◌then◌else◌, inl, inr,
  Bool-cases, Option-cases, All, All-append,
}
use webrtc_stream_server.SrtpSession.Names.{get_cipher_suite_from_string}
use webrtc_stream_server.DtlsTransport.{
  Setup, active, passive, act_pass, unknown_setup, string_to_setup, Notice, Interaction, finished,
  notified, Ssl, DtlsTransport, Event, dtls_setup, dtls_error, dtls_shutdown, send_data, async_wait,
}
use webrtc_stream_server.DtlsTransport.Keys.{
  is_active, is_none, with_material, with_profile, extract_srtp_params, setup_srtp,
}
use webrtc_stream_server.DtlsTransport.Handshake.{
  wait_for, set_timeout, try_send_pending_data, check_pending, is_done, on_handshake_done,
  on_ssl_info, run, shake, start_as, start, receive, receive_on, process_data_from_peer, expire,
  expire_on, on_timer_timeout,
}

unfoldable pub IsKnown : Event → Type 0
IsKnown (dtls_setup suite local_key remote_key) = is_none suite ≡ false
IsKnown dtls_error = Unit
IsKnown dtls_shutdown = Unit
IsKnown (send_data bytes) = Unit
IsKnown (async_wait delay) = Unit

module _ {S Cert : Type 0} (lib : Ssl S Cert) where
  IsKnown-profile :
      (t : DtlsTransport S) (s : S) (o : Option String) → All IsKnown (with_profile lib t s o).0
  unfolding with_profile IsKnown
  IsKnown-profile t s none = tt
  IsKnown-profile t s (some name) =
      elim (Bool-cases (is_none (get_cipher_suite_from_string name))) [
        | inl unknown ↦ rw unknown tt
        | inr known ↦ elim (Option-cases (lib.export_keying_material s 88)) [
          | inl fails ↦ rw (known, fails) (unfold with_material in tt)
          | inr (material, exported) ↦ rw (known, exported) (unfold with_material in (known, tt))
        ]
      ]

  IsKnown-wait : (on : Bool) (o : Option ℕ) → All IsKnown (wait_for on o)
  unfolding wait_for IsKnown
  IsKnown-wait true none = tt
  IsKnown-wait false none = tt
  IsKnown-wait true (some delay) = (tt, tt)
  IsKnown-wait false (some delay) = tt

  IsKnown-check_pending : (t : DtlsTransport S) (s : S) → All IsKnown (check_pending lib t s).1
  unfolding check_pending try_send_pending_data set_timeout IsKnown
  IsKnown-check_pending t s = elim (Bool-cases (lib.bio_pending s)) [
    | inl pending ↦ rw pending (tt, IsKnown-wait t.has_timer (lib.get_timeout (lib.bio_read s).0))
    | inr empty ↦ rw empty (IsKnown-wait t.has_timer (lib.get_timeout s))
  ]

  IsKnown-done : (t : DtlsTransport S) (s : S) → All IsKnown (on_handshake_done lib t s)
  unfolding on_handshake_done setup_srtp extract_srtp_params
  IsKnown-done t s = IsKnown-profile t s (lib.get_selected_srtp_profile s)

  IsKnown-info : (t : DtlsTransport S) (s : S) (n : Notice) → All IsKnown (on_ssl_info lib t s n).1
  unfolding on_ssl_info
  IsKnown-info t s n = elim (Bool-cases (is_done n)) [
    | inl done ↦ rw done (
        All-append IsKnown (on_handshake_done lib t s) (check_pending lib t s).1 (IsKnown-done t s)
          (IsKnown-check_pending t s))
    | inr other ↦ rw other (IsKnown-check_pending t s)
  ]

  IsKnown-run : (t : DtlsTransport S) (i : Interaction S) → All IsKnown (run lib t i).1.0
  unfolding run
  IsKnown-run t (finished s failed) = tt
  IsKnown-run t (notified s n next) =
      let left = (on_ssl_info lib t s n).0 in
      All-append IsKnown (on_ssl_info lib t s n).1 (run lib t (next left)).1.0 (IsKnown-info t s n)
        (IsKnown-run t (next left))

  IsKnown-shake : (t : DtlsTransport S) (o : Option S) → All IsKnown (shake lib t o).1.0
  unfolding shake set_timeout
  IsKnown-shake t none = tt
  IsKnown-shake t (some s) =
      let s' = if is_active t.setup then lib.set_connect_state s else lib.set_accept_state s in
      let t' : DtlsTransport S = record t { inited = true } in
      let r = run lib t' (lib.do_handshake s') in
      All-append IsKnown r.1.0 (wait_for true (lib.get_timeout r.0))
        (IsKnown-run t' (lib.do_handshake s')) (IsKnown-wait true (lib.get_timeout r.0))

  IsKnown-start_as : (t : DtlsTransport S) (o : Option Setup) → All IsKnown (start_as lib t o).1.0
  unfolding start_as
  IsKnown-start_as t none = tt
  IsKnown-start_as t (some passive) = IsKnown-shake (record t { setup = active }) t.ssl
  IsKnown-start_as t (some act_pass) = IsKnown-shake (record t { setup = active }) t.ssl
  IsKnown-start_as t (some active) = tt
  IsKnown-start_as t (some unknown_setup) = tt

  pub IsKnown-start : (t : DtlsTransport S) (role : String) → All IsKnown (start lib t role).1.0
  unfolding start
  IsKnown-start t role = IsKnown-start_as t (string_to_setup role)

  IsKnown-receive :
      (t : DtlsTransport S) (s : S) (buffer : List ℕ) → All IsKnown (receive lib t s buffer).1
  unfolding receive IsKnown
  IsKnown-receive t s buffer =
      let r = run lib t (lib.ssl_read (lib.bio_write s buffer)) in
      let first = IsKnown-run t (lib.ssl_read (lib.bio_write s buffer)) in
      let pending = IsKnown-check_pending t r.0 in
      let checked = (check_pending lib t r.0).1 in
      elim (Bool-cases (lib.received_shutdown (check_pending lib t r.0).0)) [
        | inl ended ↦ rw ended (
            All-append IsKnown r.1.0 (checked ++ (dtls_shutdown ∷ [])) first
              (All-append IsKnown checked (dtls_shutdown ∷ []) pending (tt, tt)))
        | inr goes_on ↦ rw goes_on (All-append IsKnown r.1.0 checked first pending)
      ]

  IsKnown-expire : (t : DtlsTransport S) (s : S) → All IsKnown (expire lib t s).1
  unfolding expire
  IsKnown-expire t s =
      let r = run lib t (lib.handle_timeout s) in
      let first = IsKnown-run t (lib.handle_timeout s) in
      elim (Bool-cases r.1.1) [
        | inl fails ↦ rw fails first
        | inr works ↦ rw works (
            All-append IsKnown r.1.0 (check_pending lib t r.0).1 first
              (IsKnown-check_pending t r.0))
      ]

  -- What a call gives, when it gives anything.
  unfoldable pub KnownResult : Option (DtlsTransport S × List Event) → Type 0
  KnownResult none = Unit
  KnownResult (some (t, events)) = All IsKnown events

  IsKnown-receive_on :
      (t : DtlsTransport S) (o : Option S) (buffer : List ℕ)
      → KnownResult (receive_on lib t o buffer)
  unfolding receive_on KnownResult
  IsKnown-receive_on t none buffer = tt
  IsKnown-receive_on t (some s) buffer = IsKnown-receive t s buffer

  pub IsKnown-process_data_from_peer :
      (t : DtlsTransport S) (buffer : List ℕ) → KnownResult (process_data_from_peer lib t buffer)
  unfolding process_data_from_peer
  IsKnown-process_data_from_peer t buffer = IsKnown-receive_on t t.ssl buffer

  IsKnown-expire_on : (t : DtlsTransport S) (o : Option S) → KnownResult (expire_on lib t o)
  unfolding expire_on KnownResult
  IsKnown-expire_on t none = tt
  IsKnown-expire_on t (some s) = IsKnown-expire t s

  pub IsKnown-on_timer_timeout : (t : DtlsTransport S) → KnownResult (on_timer_timeout lib t)
  unfolding on_timer_timeout
  IsKnown-on_timer_timeout t = elim (Bool-cases t.inited) [
    | inl on ↦ simp on (IsKnown-expire_on t t.ssl)
    | inr off ↦ simp off (unfold KnownResult in tt)
  ]
