-- ===== src/DtlsTransport/Roles.antt =====
-- Which roles `Start` takes, and what holds of a transport once it is initialised.
use Prim.Native.String.{String}
use text.Mathlib.Text.{◌==◌ as str_eq}
use text.Mathlib.TextEquality.{eq_iff}
use webrtc_stream_server.Prelude.{
  ◌≡◌, ◌⊎◌, refl, sym, ap, Bool, true, false, Option, none, some, [], inl, inr, subst, ◌&&◌, ◌||◌,
  if◌then◌else◌, Bool-cases, Option-cases,
}
use webrtc_stream_server.DtlsTransport.{Setup, active, passive, string_to_setup, Ssl, DtlsTransport}
use webrtc_stream_server.DtlsTransport.Handshake.{shake, start_as, start}

-- The role of a peer that leaves the client's part to the server.
unfoldable pub offers : String → Bool
offers setup_in_sdp = str_eq setup_in_sdp "passive" || str_eq setup_in_sdp "actpass"

-- The role that a refused start leaves: that of the server for an active peer, that of the client where
-- only the connection is missing, and the one before for a role that is not known.
unfoldable pub left_setup : String → Setup → Setup
left_setup setup_in_sdp before =
    if str_eq setup_in_sdp "active" then passive else if offers setup_in_sdp then active else before

unfoldable pub has_connection : {S : Type 0} → Option S → Bool
has_connection none = false
has_connection (some s) = true

module _ {S Cert : Type 0} (lib : Ssl S Cert) where
  -- What a refused start leaves.
  unfoldable pub Refuses : DtlsTransport S → String → Type 0
  Refuses t setup_in_sdp =
      (offers setup_in_sdp && has_connection t.ssl ≡ false)
      × ((start lib t setup_in_sdp).1.1 ≡ false)
      × ((start lib t setup_in_sdp).1.0 ≡ [])
      × ((start lib t setup_in_sdp).0.ssl ≡ t.ssl)
      × ((start lib t setup_in_sdp).0.inited ≡ t.inited)
      × ((start lib t setup_in_sdp).0.has_timer ≡ t.has_timer)
      × ((start lib t setup_in_sdp).0.setup ≡ left_setup setup_in_sdp t.setup)

  unfoldable pub Takes : DtlsTransport S → String → Type 0
  Takes t setup_in_sdp =
      (offers setup_in_sdp && has_connection t.ssl ≡ true)
      × ((start lib t setup_in_sdp).1.1 ≡ true)
      × ((start lib t setup_in_sdp).0.setup ≡ active)
      × (has_connection (start lib t setup_in_sdp).0.ssl ≡ true)
      × ((start lib t setup_in_sdp).0.inited ≡ true)
      × ((start lib t setup_in_sdp).0.has_timer ≡ true)

  shake-cases :
      (t : DtlsTransport S) (setup_in_sdp : String)
      → offers setup_in_sdp ≡ true
      → left_setup setup_in_sdp t.setup ≡ active
      → start lib t setup_in_sdp ≡ shake lib (record t { setup = active }) t.ssl
      → Takes t setup_in_sdp ⊎ Refuses t setup_in_sdp
  unfolding Takes Refuses shake has_connection
  shake-cases t setup_in_sdp offered role starts = elim (Option-cases t.ssl) [
    | inl gone ↦ inr (rw (starts, gone, offered, role) (refl, refl, refl, refl, refl, refl, refl))
    | inr (s, there) ↦ inl (rw (starts, there, offered) (refl, refl, refl, refl, refl, refl))
  ]

  -- `Start` takes the client's part exactly when the peer is passive or leaves the choice and there is a
  -- connection: it answers true, and the transport is active, connected, initialised and has its timer. In every
  -- other case it answers false, has told nobody anything, and has left the connection, the flag and
  -- the timer as they were; the role is then passive for an active peer, active where only the
  -- connection is missing, and as it was otherwise.
  pub start-cases :
      (t : DtlsTransport S) (setup_in_sdp : String) → Takes t setup_in_sdp ⊎ Refuses t setup_in_sdp
  unfolding start start_as string_to_setup offers Refuses
  start-cases t setup_in_sdp = elim (Bool-cases (str_eq setup_in_sdp "active")) [
    | inl is_active ↦
        let (to, from) = eq_iff setup_in_sdp "active" in
        let refused : offers setup_in_sdp ≡ false =
          subst (λ x. offers x ≡ false) (sym (to is_active)) refl in
        let no : offers setup_in_sdp && has_connection t.ssl ≡ false =
          ap (λ x. x && has_connection t.ssl) refused in
        inr (
          no,
          rw is_active refl,
          rw is_active refl,
          rw is_active refl,
          rw is_active refl,
          rw is_active refl,
          rw is_active (unfold left_setup in rw is_active refl),
        )
    | inr not_active ↦ elim (Bool-cases (str_eq setup_in_sdp "passive")) [
      | inl is_passive ↦
          shake-cases t setup_in_sdp (rw is_passive refl)
            (unfold left_setup offers in rw (not_active, is_passive) refl)
            (rw (not_active, is_passive) refl)
      | inr not_passive ↦ elim (Bool-cases (str_eq setup_in_sdp "actpass")) [
        | inl either ↦
            shake-cases t setup_in_sdp (rw (not_passive, either) refl)
              (unfold left_setup offers in rw (not_active, not_passive, either) refl)
              (rw (not_active, not_passive, either) refl)
        | inr unknown ↦ inr (
            rw (not_active, not_passive, unknown)
              (
                refl,
                refl,
                refl,
                refl,
                refl,
                refl,
                unfold left_setup offers in rw (not_active, not_passive, unknown) refl,
              ))
      ]
    ]
  ]
