-- ===== src/WebrtcTransport/Connection/Secured.antt =====
-- The SRTP sessions of a transport: each has a key for its direction, or none yet; once the transport calls
-- its connection established, a session lacks a key only if the SRTP library has refused one.
pub mod Callbacks
pub mod Sending
use Prim.Native.String.{String}
use webrtc_stream_server.Prelude.{
  ℕ, ◌≡◌, refl, sym, ap, ◌∙◌, Bool, true, false, Option, none, some, List, [], ◌∷◌, ◌++◌,
  if◌then◌else◌, inl, inr, ◌⊎◌, Bool-cases, Option-cases, All, subst,
}
use webrtc_stream_server.MediaPacket.{MediaType, video, audio, MediaPacket}
use webrtc_stream_server.MediaStream.{MediaStream, Output, rtp_packet_send, rtcp_packet_send}
use webrtc_stream_server.StunMessage.{StunMessage}
use webrtc_stream_server.IceLite.{Callback}
use webrtc_stream_server.SrtpSession.{
  CipherSuite, suite_none, suite_aes_cm_128_hmac_sha1_80, suite_aes_cm_128_hmac_sha1_32,
  suite_aead_aes_128_gcm, suite_aead_aes_256_gcm, aes_cm_128_hmac_sha1_80, aes_cm_128_hmac_sha1_32,
  aes_gcm_128_16_auth, aes_gcm_256_16_auth, Library, Policy, SrtpSession, policies, init,
}
use webrtc_stream_server.DtlsTransport.{
  Ssl, DtlsTransport, Event, dtls_setup, dtls_error, dtls_shutdown, send_data, async_wait,
}
use webrtc_stream_server.DtlsTransport.Keys.{is_none}
use webrtc_stream_server.DtlsTransport.Handshake.{start, process_data_from_peer, on_timer_timeout}
use webrtc_stream_server.WebrtcTransport.{
  Route, to_ice, to_dtls, dtls_not_ready, to_srtp, to_nothing, route,
}
use webrtc_stream_server.WebrtcTransport.Connection.{
  WebrtcTransport, Handled, Effect, send_to, write_packet, shutdown, init_session,
  on_dtls_transport_setup, on_event, on_events, ready_if, on_ice_connection_completed, after_dtls,
  on_dtls_timer,
}
use webrtc_stream_server.WebrtcTransport.Connection.Media.{
  on_rtp_packet_send, on_rtcp_packet_send, on_output, on_outputs, after_stream, on_incoming_kind,
  on_incoming_packet, on_stream_timer,
}
use webrtc_stream_server.WebrtcTransport.Connection.Datagrams.{
  on_callback, on_callbacks, receive_stun, receive_on_stream, receive_routed,
  on_udp_socket_data_receive, on_udp_socket_error,
}
use webrtc_stream_server.WebrtcTransport.Connection.Events.{
  IsKnown, KnownResult, IsKnown-start, IsKnown-process_data_from_peer, IsKnown-on_timer_timeout,
}

-- A session in the direction `is_incoming`.
pub record Keyed (s : SrtpSession) (is_incoming : Bool) : Type 0 where
  pub policy : Policy
  pub held : s.session ≡ some policy
  pub directed : policy.is_incoming ≡ is_incoming

-- The session has a key for the direction, or it has none and `Reason` holds.
abbrev pub KeyedOr : Type 0 → SrtpSession → Bool → Type 0
KeyedOr Reason s is_incoming = Keyed s is_incoming ⊎ ((s.session ≡ none) × Reason)

-- What every callback leaves of the parts that matter here, unless DTLS sets the sessions up.
unfoldable pub Same : {S : Type 0} → WebrtcTransport S → WebrtcTransport S → Type 0
Same t t' =
    (t'.connection_established ≡ t.connection_established)
    × (t'.send_srtp_session ≡ t.send_srtp_session)
    × (t'.recv_srtp_session ≡ t.recv_srtp_session)

module _ (lib : Library) where
  -- The library refuses some policy.
  abbrev pub Refuses : Type 0
  Refuses = (policy : Policy) × (lib.accepts policy ≡ false)

  unfoldable pub Secured : {S : Type 0} → WebrtcTransport S → Type 0
  Secured t =
      KeyedOr (t.connection_established ≡ true → Refuses) t.send_srtp_session false
      × KeyedOr (t.connection_established ≡ true → Refuses) t.recv_srtp_session true

  pub Secured-Same : {S : Type 0} (t t' : WebrtcTransport S) → Same t t' → Secured t → Secured t'
  unfolding Secured Same
  Secured-Same t t' (on, sending, receiving) (keyed, keyed') = (
    subst (λ s. KeyedOr (t'.connection_established ≡ true → Refuses) s false) (sym sending)
        (subst (λ b. KeyedOr (b ≡ true → Refuses) t.send_srtp_session false) (sym on) keyed),
    subst (λ s. KeyedOr (t'.connection_established ≡ true → Refuses) s true) (sym receiving)
        (subst (λ b. KeyedOr (b ≡ true → Refuses) t.recv_srtp_session true) (sym on) keyed'),
  )

  refused :
      {Reason : Type 0} (s : SrtpSession) (is_incoming : Bool)
      → Refuses
      → KeyedOr Reason s is_incoming
      → KeyedOr (true ≡ true → Refuses) s is_incoming
  refused s is_incoming refuses (inl keyed) = inl keyed
  refused s is_incoming refuses (inr (absent, reason)) = inr (absent, λ on. refuses)

  KeyedOr-policy :
      {Reason : Type 0} (s : SrtpSession) (policy : Policy) (rtp_tag rtcp_tag : ℕ)
      → KeyedOr Reason s policy.is_incoming
      → KeyedOr
          (true ≡ true → Refuses)
          (init_session s (
            if lib.accepts policy
            then some (record {
              session = some policy;
              rtp_auth_tag_len = rtp_tag;
              rtcp_auth_tag_len = rtcp_tag;
            })
            else none))
          policy.is_incoming
  unfolding init_session
  KeyedOr-policy s policy rtp_tag rtcp_tag before = elim (Bool-cases (lib.accepts policy)) [
    | inl accepts ↦ simp accepts (inl (record { policy = policy; held = refl; directed = refl }))
    | inr refuses ↦ simp refuses (refused s policy.is_incoming (policy, refuses) before)
  ]

  KeyedOr-init :
      {Reason : Type 0} (s : SrtpSession) (is_incoming : Bool) (suite : CipherSuite) (key : List ℕ)
      → is_none suite ≡ false
      → KeyedOr Reason s is_incoming
      → KeyedOr
          (true ≡ true → Refuses)
          (init_session s (init lib is_incoming suite key))
          is_incoming
  unfolding is_none init policies
  KeyedOr-init s is_incoming suite_none key h before = absurd (let f : true ≡ false = h in cc)
  KeyedOr-init s is_incoming suite_aes_cm_128_hmac_sha1_80 key h before =
      KeyedOr-policy s
        (record {
          rtp = aes_cm_128_hmac_sha1_80;
          rtcp = aes_cm_128_hmac_sha1_80;
          is_incoming = is_incoming;
          key = key;
        })
        (lib.auth_tag_len aes_cm_128_hmac_sha1_80) (lib.auth_tag_len aes_cm_128_hmac_sha1_80) before
  KeyedOr-init s is_incoming suite_aes_cm_128_hmac_sha1_32 key h before =
      KeyedOr-policy s
        (record {
          rtp = aes_cm_128_hmac_sha1_32;
          rtcp = aes_cm_128_hmac_sha1_80;
          is_incoming = is_incoming;
          key = key;
        })
        (lib.auth_tag_len aes_cm_128_hmac_sha1_32) (lib.auth_tag_len aes_cm_128_hmac_sha1_80) before
  KeyedOr-init s is_incoming suite_aead_aes_128_gcm key h before =
      KeyedOr-policy s
        (record {
          rtp = aes_gcm_128_16_auth;
          rtcp = aes_gcm_128_16_auth;
          is_incoming = is_incoming;
          key = key;
        })
        (lib.auth_tag_len aes_gcm_128_16_auth) (lib.auth_tag_len aes_gcm_128_16_auth) before
  KeyedOr-init s is_incoming suite_aead_aes_256_gcm key h before =
      KeyedOr-policy s
        (record {
          rtp = aes_gcm_256_16_auth;
          rtcp = aes_gcm_256_16_auth;
          is_incoming = is_incoming;
          key = key;
        })
        (lib.auth_tag_len aes_gcm_256_16_auth) (lib.auth_tag_len aes_gcm_256_16_auth) before

  module _ {S Cert : Type 0} (ssl : Ssl S Cert) where
    pub Secured-on_event :
        (t : WebrtcTransport S) (event : Event)
        → IsKnown event
        → Secured t
        → Secured (on_event ssl lib t event).0
    unfolding on_event on_dtls_transport_setup shutdown write_packet send_to IsKnown Secured
    Secured-on_event t (dtls_setup suite l r) known (sending, receiving) = (
      KeyedOr-init t.send_srtp_session false suite l known sending,
      KeyedOr-init t.recv_srtp_session true suite r known receiving,
    )
    Secured-on_event t dtls_error known secured = secured
    Secured-on_event t dtls_shutdown known secured = secured
    Secured-on_event t (send_data bytes) known secured = secured
    Secured-on_event t (async_wait delay) known secured = secured

    pub Secured-on_events :
        (t : WebrtcTransport S) (events : List Event)
        → All IsKnown events
        → Secured t
        → Secured (on_events ssl lib t events).0
    unfolding on_events
    Secured-on_events t [] known secured = secured
    Secured-on_events t (event ∷ events) (known, later) secured =
        Secured-on_events (on_event ssl lib t event).0 events later
          (Secured-on_event t event known secured)

    pub Secured-completed :
        (t : WebrtcTransport S) → Secured t → Secured (on_ice_connection_completed ssl lib t).0
    unfolding on_ice_connection_completed ready_if
    Secured-completed t secured =
        let r = start ssl t.dtls_transport t.remote_setup in
        let t' : WebrtcTransport S = record t {
          selected_endpoint = t.ice_lite.favored_candidate;
          dtls_transport = r.0;
        } in
        let after =
          Secured-on_events t' r.1.0 (IsKnown-start ssl t.dtls_transport t.remote_setup)
            (unfold Secured in secured) in
        elim (Bool-cases r.1.1) [
          | inl ok ↦ rw ok (unfold Secured in after)
          | inr fails ↦ rw fails after
        ]

    -- What a callback leaves, when it does not follow a null pointer.
    unfoldable pub SecuredResult : Option (Handled S) → Type 0
    SecuredResult none = Unit
    SecuredResult (some (t, effects)) = Secured t

    pub Secured-after_dtls :
        (t : WebrtcTransport S) (r : Option (DtlsTransport S × List Event))
        → KnownResult ssl r
        → Secured t
        → SecuredResult (after_dtls ssl lib t r)
    unfolding after_dtls KnownResult SecuredResult
    Secured-after_dtls t none known secured = tt
    Secured-after_dtls t (some (dtls, events)) known secured =
        Secured-on_events (record t { dtls_transport = dtls }) events known
          (unfold Secured in secured)

  module _ {S : Type 0} (left : List ℕ → List ℕ) where
    pub Same-on_outputs :
        (t : WebrtcTransport S) (outputs : List Output) → Same t (on_outputs lib left t outputs).0
    unfolding on_outputs on_output on_rtp_packet_send on_rtcp_packet_send write_packet send_to Same
    Same-on_outputs t [] = (refl, refl, refl)
    Same-on_outputs t (rtp_packet_send bytes ∷ outputs) =
        Same-on_outputs (on_rtp_packet_send lib left t bytes).0 outputs
    Same-on_outputs t (rtcp_packet_send bytes ∷ outputs) =
        Same-on_outputs (on_rtcp_packet_send lib left t bytes).0 outputs
