-- ===== src/SrtpSession/Protect.antt =====
-- The length checks before the in-place transforms.
use webrtc_stream_server.Prelude.{
  ℕ, ◌+◌, ◌≤◌, ◌≡◌, refl, sym, ap, subst, ◌∙◌, Bool, true, false, List, length, Option, none, some,
  arith, if◌then◌else◌, ltb,
}
use webrtc_stream_server.SrtpSession.{
  CipherSuite, suite_none, suite_aes_cm_128_hmac_sha1_80, suite_aes_cm_128_hmac_sha1_32,
  suite_aead_aes_128_gcm, suite_aead_aes_256_gcm, Policy, Library, SrtpSession, policies, init,
  protect_rtp, protect_rtcp,
}

-- What the library documents: a protected packet is longer by the tag at most, and a protected RTCP
-- packet by four bytes more.
pub record IsDocumented (lib : Library) : Type 0 where
  pub rtp_growth :
      (policy : Policy) (packet out : List ℕ)
      → lib.protect policy packet ≡ some out
      → length out ≤ length packet + lib.auth_tag_len policy.rtp
  pub rtcp_growth :
      (policy : Policy) (packet out : List ℕ)
      → lib.protect_rtcp policy packet ≡ some out
      → length out ≤ length packet + 4 + lib.auth_tag_len policy.rtcp

-- The session has the tag lengths of its policy.
abbrev HasTags : Library → SrtpSession → Type 0
HasTags lib s =
    (policy : Policy) × (s.session ≡ some policy)
    × (s.rtp_auth_tag_len ≡ lib.auth_tag_len policy.rtp)
    × (s.rtcp_auth_tag_len ≡ lib.auth_tag_len policy.rtcp)

chosen : {A : Type 0} (b : Bool) (x y : A) → (if b then some x else none) ≡ some y → x ≡ y
chosen true x y e = cc
chosen false x y e = cc

made_with :
    (lib : Library) (b : Bool) (policy : Policy) (s : SrtpSession)
    → (if b
        then some (record {
          session = some policy;
          rtp_auth_tag_len = lib.auth_tag_len policy.rtp;
          rtcp_auth_tag_len = lib.auth_tag_len policy.rtcp;
        })
        else none)
      ≡ some s
    → HasTags lib s
made_with lib b policy s e =
    let x : SrtpSession = record {
      session = some policy;
      rtp_auth_tag_len = lib.auth_tag_len policy.rtp;
      rtcp_auth_tag_len = lib.auth_tag_len policy.rtcp;
    } in
    subst (HasTags lib) (chosen b x s e) (policy, refl, refl, refl)

init-HasTags :
    (lib : Library) (is_incoming : Bool) (suite : CipherSuite) (key : List ℕ) (s : SrtpSession)
    → init lib is_incoming suite key ≡ some s
    → HasTags lib s
unfolding init policies
init-HasTags lib is_incoming suite_none key s e = cc
init-HasTags lib is_incoming suite_aes_cm_128_hmac_sha1_80 key s e = made_with lib _ _ s e
init-HasTags lib is_incoming suite_aes_cm_128_hmac_sha1_32 key s e = made_with lib _ _ s e
init-HasTags lib is_incoming suite_aead_aes_128_gcm key s e = made_with lib _ _ s e
init-HasTags lib is_incoming suite_aead_aes_256_gcm key s e = made_with lib _ _ s e

checked :
    (b : Bool) (o : Option (List ℕ)) (out : List ℕ)
    → (if b then none else o) ≡ some out
    → (b ≡ false) × (o ≡ some out)
checked true o out e = cc
checked false o out e = (refl, e)

-- With a library that lengthens packets as documented, a session that `init` has made, with any
-- suite and key, leaves in a buffer of `max_len` bytes a protected RTP packet that fits it, and a
-- protected RTCP packet that fits it, whenever the two calls succeed.
pub protect-fits :
    (lib : Library) (is_incoming : Bool) (suite : CipherSuite) (key : List ℕ) (s : SrtpSession)
    (packet out packet' out' : List ℕ) (max_len : ℕ)
    → IsDocumented lib
    → init lib is_incoming suite key ≡ some s
    → protect_rtp lib s packet max_len ≡ some out
    → protect_rtcp lib s packet' max_len ≡ some out'
    → (length out ≤ max_len) × (length out' ≤ max_len)
unfolding init policies protect_rtp protect_rtcp
protect-fits lib is_incoming suite key s packet out packet' out' max_len d made rtp rtcp =
    let (policy, has, tag, rtcp_tag) = init-HasTags lib is_incoming suite key s made in
    let rtp_of : Option Policy → Option (List ℕ) = λ o. elim o [
      | none ↦ none
      | some policy ↦
          if ltb max_len (length packet + s.rtp_auth_tag_len)
          then none
          else lib.protect policy packet
    ] in
    let rtcp_of : Option Policy → Option (List ℕ) = λ o. elim o [
      | none ↦ none
      | some policy ↦
          if ltb max_len (length packet' + 4 + s.rtcp_auth_tag_len)
          then none
          else lib.protect_rtcp policy packet'
    ] in
    let (room, done) = checked _ (lib.protect policy packet) out (sym (ap rtp_of has) ∙ rtp) in
    let (rtcp_room, rtcp_done) =
      checked _ (lib.protect_rtcp policy packet') out' (sym (ap rtcp_of has) ∙ rtcp) in
    let grown = d.rtp_growth policy packet out done in
    let rtcp_grown = d.rtcp_growth policy packet' out' rtcp_done in (ground arith, ground arith)
