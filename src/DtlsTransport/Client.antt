-- ===== src/DtlsTransport/Client.antt =====
-- What holds of a transport once it is initialised, whatever calls came before.
use Prim.Native.String.{String}
use webrtc_stream_server.Prelude.{
  ℕ, ◌≡◌, refl, sym, ap, ◌∙◌, Bool, true, false, Option, none, some, List, [], if◌then◌else◌, inl,
  inr, subst, ◌⊎◌, Bool-cases,
}
use webrtc_stream_server.DtlsContext.{get_hash_from_string}
use webrtc_stream_server.DtlsTransport.{
  active, Ssl, DtlsTransport, Event, create, attach, init, stop,
}
use webrtc_stream_server.DtlsTransport.Fingerprint.{
  keep, set_remote_fingerprint, store_parts, split,
}
use webrtc_stream_server.DtlsTransport.Handshake.{
  run, check_pending, start, receive, receive_on, process_data_from_peer, expire, expire_on,
  on_timer_timeout,
}
use webrtc_stream_server.DtlsTransport.Roles.{offers, has_connection, Takes, Refuses, start-cases}

module _ {S Cert : Type 0} (lib : Ssl S Cert) where
  -- The transports of one connection, whose peer's role is `setup_in_sdp`: the calls in any order, after
  -- an initialisation that comes first.
  pub data Reachable (scan : List ℕ → Option ℕ) (setup_in_sdp : String)
      : DtlsTransport S → Type 0 where
    created : Reachable scan setup_in_sdp (init lib (create false)).0
    fingerprinted :
        (t t' : DtlsTransport S) (hash : String) (fingerprint : List ℕ)
        → set_remote_fingerprint scan t hash fingerprint ≡ some t'
        → Reachable scan setup_in_sdp t
        → Reachable scan setup_in_sdp t'
    started :
        (t : DtlsTransport S)
        → Reachable scan setup_in_sdp t
        → Reachable scan setup_in_sdp (start lib t setup_in_sdp).0
    received :
        (t t' : DtlsTransport S) (buffer : List ℕ) (events : List Event)
        → process_data_from_peer lib t buffer ≡ some (t', events)
        → Reachable scan setup_in_sdp t
        → Reachable scan setup_in_sdp t'
    timed :
        (t t' : DtlsTransport S) (events : List Event)
        → on_timer_timeout lib t ≡ some (t', events)
        → Reachable scan setup_in_sdp t
        → Reachable scan setup_in_sdp t'
    stopped :
        (t : DtlsTransport S) → Reachable scan setup_in_sdp t → Reachable scan setup_in_sdp (stop t)

  -- What a call that goes through OpenSSL leaves as it was.
  abbrev Keeps : DtlsTransport S → DtlsTransport S → Type 0
  Keeps t t' = (t'.inited ≡ t.inited) × (t'.setup ≡ t.setup) × (has_connection t'.ssl ≡ true)

  Keeps-receive :
      (t : DtlsTransport S) (s : S) (buffer : List ℕ) → Keeps t (receive lib t s buffer).0
  unfolding receive has_connection
  Keeps-receive t s buffer =
      let r = run lib t (lib.ssl_read (lib.bio_write s buffer)) in
      elim (Bool-cases (lib.received_shutdown (check_pending lib t r.0).0)) [
        | inl ended ↦ rw ended (refl, refl, refl)
        | inr goes_on ↦ rw goes_on (refl, refl, refl)
      ]

  Keeps-receive_on :
      (t t' : DtlsTransport S) (o : Option S) (buffer : List ℕ) (events : List Event)
      → receive_on lib t o buffer ≡ some (t', events)
      → Keeps t t'
  unfolding receive_on
  Keeps-receive_on t t' none buffer events e = absurd (let f : none ≡ some (t', events) = e in cc)
  Keeps-receive_on t t' (some s) buffer events e =
      let f : some (receive lib t s buffer) ≡ some (t', events) = e in
      let same : receive lib t s buffer ≡ (t', events) = cc in
      subst (Keeps t) (ap (λ p. p.0) same) (Keeps-receive t s buffer)

  Keeps-expire : (t : DtlsTransport S) (s : S) → Keeps t (expire lib t s).0
  unfolding expire has_connection
  Keeps-expire t s = elim (Bool-cases (run lib t (lib.handle_timeout s)).1.1) [
    | inl fails ↦ rw fails (refl, refl, refl)
    | inr works ↦ rw works (refl, refl, refl)
  ]

  Keeps-expire_on :
      (t t' : DtlsTransport S) (o : Option S) (events : List Event)
      → expire_on lib t o ≡ some (t', events)
      → Keeps t t'
  unfolding expire_on
  Keeps-expire_on t t' none events e = absurd (let f : none ≡ some (t', events) = e in cc)
  Keeps-expire_on t t' (some s) events e =
      let f : some (expire lib t s) ≡ some (t', events) = e in
      let same : expire lib t s ≡ (t', events) = cc in
      subst (Keeps t) (ap (λ p. p.0) same) (Keeps-expire t s)

  unfoldable IsClient : String → DtlsTransport S → Type 0
  IsClient setup_in_sdp t =
      t.inited ≡ true
      → (offers setup_in_sdp ≡ true) × (t.setup ≡ active) × (has_connection t.ssl ≡ true)

  IsClient-Keeps :
      (setup_in_sdp : String) (t t' : DtlsTransport S)
      → Keeps t t'
      → IsClient setup_in_sdp t
      → IsClient setup_in_sdp t'
  unfolding IsClient
  IsClient-Keeps setup_in_sdp t t' (on, role, there) client h =
      let (offered, is_client, _) = client (sym on ∙ h) in (offered, role ∙ is_client, there)

  inited-attach : (o : Option S) → (attach lib (create false) o).0.inited ≡ false
  unfolding attach create
  inited-attach none = refl
  inited-attach (some s) = elim (Bool-cases lib.read_bio_new) [
    | inl read ↦ elim (Bool-cases lib.write_bio_new) [
      | inl write ↦ rw (read, write) refl
      | inr lacks ↦ rw (read, lacks) refl
    ]
    | inr lacks ↦ rw lacks refl
  ]

  IsClient-started :
      (t : DtlsTransport S) (setup_in_sdp : String)
      → IsClient setup_in_sdp t
      → IsClient setup_in_sdp (start lib t setup_in_sdp).0
  unfolding IsClient Takes Refuses
  IsClient-started t setup_in_sdp client h = elim (start-cases lib t setup_in_sdp) [
    | inl (both, ok, role, there, on, timer) ↦ elim (Bool-cases (offers setup_in_sdp)) [
      | inl offered ↦ (offered, role, there)
      | inr refused ↦ absurd (let f : false ≡ true = rw refused at both in cc)
    ]
    | inr (lacks, answer, quiet, ssl, on, timer, role') ↦
        let (offered, role, there) = client (sym on ∙ h) in
        absurd (let f : true ≡ false = rw (offered, there) at lacks in cc)
  ]

  chosen :
      (t t' : DtlsTransport S) (on : Bool) (events : List Event)
      (fired : Option (DtlsTransport S × List Event))
      → (if on then fired else some (t, [])) ≡ some (t', events)
      → (fired ≡ some (t', events)) ⊎ (t ≡ t')
  chosen t t' true events fired e = inl e
  chosen t t' false events fired e = inr (let f : some (t, []) ≡ some (t', events) = e in cc)

  IsClient-timed :
      (t t' : DtlsTransport S) (setup_in_sdp : String) (events : List Event)
      → on_timer_timeout lib t ≡ some (t', events)
      → IsClient setup_in_sdp t
      → IsClient setup_in_sdp t'
  unfolding on_timer_timeout
  IsClient-timed t t' setup_in_sdp events e client =
      elim (chosen t t' t.inited events (expire_on lib t t.ssl) e) [
        | inl fired ↦
            IsClient-Keeps setup_in_sdp t t' (Keeps-expire_on t t' t.ssl events fired) client
        | inr same ↦ subst (IsClient setup_in_sdp) same client
      ]

  IsClient-keep :
      (t u t' : DtlsTransport S) (setup_in_sdp : String) (o : Option (List ℕ))
      → keep u o ≡ some t'
      → u.inited ≡ t.inited
      → u.setup ≡ t.setup
      → u.ssl ≡ t.ssl
      → IsClient setup_in_sdp t
      → IsClient setup_in_sdp t'
  unfolding keep IsClient
  IsClient-keep t u t' setup_in_sdp none e on role there client =
      absurd (let f : none ≡ some t' = e in cc)
  IsClient-keep t u t' setup_in_sdp (some fingerprint) e on role there client =
      let u' : DtlsTransport S = record u { remote_fingerprint = fingerprint } in
      let same : u' ≡ t' = (let f : some u' ≡ some t' = e in cc) in
      subst (IsClient setup_in_sdp) same (λ h.
        let (offered, is_client, connected) = client (sym on ∙ h) in
        (offered, role ∙ is_client, ap has_connection there ∙ connected))

  Reachable-IsClient :
      (scan : List ℕ → Option ℕ) (setup_in_sdp : String) (t : DtlsTransport S)
      → Reachable scan setup_in_sdp t
      → IsClient setup_in_sdp t
  Reachable-IsClient scan setup_in_sdp _ created =
      unfold IsClient init in
      (λ h. absurd (let f : false ≡ true = sym (inited-attach lib.ssl_new) ∙ h in cc))
  Reachable-IsClient scan setup_in_sdp _ (started t r) =
      IsClient-started t setup_in_sdp (Reachable-IsClient scan setup_in_sdp t r)
  Reachable-IsClient scan setup_in_sdp _ (fingerprinted t t' hash fingerprint e r) =
      IsClient-keep t (record t { remote_hash = get_hash_from_string hash }) t' setup_in_sdp
        (store_parts scan 0 (split fingerprint) t.remote_fingerprint)
        (unfold set_remote_fingerprint in e) refl refl refl
        (Reachable-IsClient scan setup_in_sdp t r)
  Reachable-IsClient scan setup_in_sdp _ (received t t' buffer events e r) =
      IsClient-Keeps setup_in_sdp t t'
        (unfold process_data_from_peer in Keeps-receive_on t t' t.ssl buffer events e)
        (Reachable-IsClient scan setup_in_sdp t r)
  Reachable-IsClient scan setup_in_sdp _ (timed t t' events e r) =
      IsClient-timed t t' setup_in_sdp events e (Reachable-IsClient scan setup_in_sdp t r)
  Reachable-IsClient scan setup_in_sdp _ (stopped t r) =
      unfold IsClient stop in (λ h. absurd (let f : false ≡ true = h in cc))

  -- After any calls of a transport that was created uninitialised, with one role of the peer: while it
  -- is initialised, that role leaves the client's part to the server, the transport is the client, and
  -- it has a connection.
  pub Reachable-client :
      (scan : List ℕ → Option ℕ) (setup_in_sdp : String) (t : DtlsTransport S)
      → Reachable scan setup_in_sdp t
      → t.inited ≡ true
      → (offers setup_in_sdp ≡ true) × (t.setup ≡ active) × (has_connection t.ssl ≡ true)
  unfolding IsClient
  Reachable-client scan setup_in_sdp t r h = Reachable-IsClient scan setup_in_sdp t r h
