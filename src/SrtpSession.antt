-- ===== src/SrtpSession.antt =====
-- srtp_session.h and srtp_session.cpp. The SRTP library is the parameter `Library`: the tag lengths that
-- its policies set, whether it creates a session, and its transforms of a packet.
pub mod Names
pub mod Protect
use webrtc_stream_server.Prelude.{
  ℕ, ◌+◌, Bool, true, false, List, length, Option, none, some, if◌then◌else◌, ltb,
}

pub data CipherSuite : Type 0 where
  suite_none : CipherSuite
  suite_aes_cm_128_hmac_sha1_80 : CipherSuite
  suite_aes_cm_128_hmac_sha1_32 : CipherSuite
  suite_aead_aes_128_gcm : CipherSuite
  suite_aead_aes_256_gcm : CipherSuite

-- The policies that the library's functions set.
pub data CryptoPolicy : Type 0 where
  aes_cm_128_hmac_sha1_80 : CryptoPolicy
  aes_cm_128_hmac_sha1_32 : CryptoPolicy
  aes_gcm_128_16_auth : CryptoPolicy
  aes_gcm_256_16_auth : CryptoPolicy

pub record CipherSuiteKeySaltLength : Type 0 where
  pub key_length : ℕ
  pub salt_length : ℕ

-- A suite that is not in the map gets the default of both lengths.
unfoldable pub get_suite_key_salt_length : CipherSuite → CipherSuiteKeySaltLength
get_suite_key_salt_length suite_none = record { key_length = 0; salt_length = 0 }
get_suite_key_salt_length suite_aes_cm_128_hmac_sha1_80 = record {
  key_length = 16;
  salt_length = 14;
}
get_suite_key_salt_length suite_aes_cm_128_hmac_sha1_32 = record {
  key_length = 16;
  salt_length = 14;
}
get_suite_key_salt_length suite_aead_aes_128_gcm = record { key_length = 16; salt_length = 12 }
get_suite_key_salt_length suite_aead_aes_256_gcm = record { key_length = 32; salt_length = 12 }

-- The policies for RTP and for RTCP.
unfoldable pub policies : CipherSuite → Option (CryptoPolicy × CryptoPolicy)
policies suite_none = none
policies suite_aes_cm_128_hmac_sha1_80 = some (aes_cm_128_hmac_sha1_80, aes_cm_128_hmac_sha1_80)
policies suite_aes_cm_128_hmac_sha1_32 = some (aes_cm_128_hmac_sha1_32, aes_cm_128_hmac_sha1_80)
policies suite_aead_aes_128_gcm = some (aes_gcm_128_16_auth, aes_gcm_128_16_auth)
policies suite_aead_aes_256_gcm = some (aes_gcm_256_16_auth, aes_gcm_256_16_auth)

pub record Policy : Type 0 where
  pub rtp : CryptoPolicy
  pub rtcp : CryptoPolicy
  pub is_incoming : Bool
  pub key : List ℕ

pub record Library : Type 0 where
  pub auth_tag_len : CryptoPolicy → ℕ
  pub accepts : Policy → Bool
  pub protect : Policy → List ℕ → Option (List ℕ)
  pub protect_rtcp : Policy → List ℕ → Option (List ℕ)
  pub unprotect : Policy → List ℕ → Option (List ℕ)
  pub unprotect_rtcp : Policy → List ℕ → Option (List ℕ)

pub record SrtpSession : Type 0 where
  pub session : Option Policy
  pub rtp_auth_tag_len : ℕ
  pub rtcp_auth_tag_len : ℕ

unfoldable pub create : SrtpSession
create = record { session = none; rtp_auth_tag_len = 0; rtcp_auth_tag_len = 0 }

module _ (lib : Library) where
  unfoldable pub init : Bool → CipherSuite → List ℕ → Option SrtpSession
  init is_incoming suite key = elim (policies suite) [
    | none ↦ none
    | some (rtp, rtcp) ↦
        let policy : Policy = record {
          rtp = rtp;
          rtcp = rtcp;
          is_incoming = is_incoming;
          key = key;
        } in
        if lib.accepts policy
        then some (record {
          session = some policy;
          rtp_auth_tag_len = lib.auth_tag_len rtp;
          rtcp_auth_tag_len = lib.auth_tag_len rtcp;
        })
        else none
  ]

  -- The packet in its buffer of `max_len` bytes, of which the result is what the call leaves.
  unfoldable pub protect_rtp : SrtpSession → List ℕ → ℕ → Option (List ℕ)
  protect_rtp s packet max_len = elim s.session [
    | none ↦ none
    | some policy ↦
        if ltb max_len (length packet + s.rtp_auth_tag_len) then none else lib.protect policy packet
  ]

  unfoldable pub protect_rtcp : SrtpSession → List ℕ → ℕ → Option (List ℕ)
  protect_rtcp s packet max_len = elim s.session [
    | none ↦ none
    | some policy ↦
        if ltb max_len (length packet + 4 + s.rtcp_auth_tag_len)
        then none
        else lib.protect_rtcp policy packet
  ]

  unfoldable pub unprotect_rtp : SrtpSession → List ℕ → Option (List ℕ)
  unprotect_rtp s packet = elim s.session [
    | none ↦ none
    | some policy ↦ lib.unprotect policy packet
  ]

  unfoldable pub unprotect_rtcp : SrtpSession → List ℕ → Option (List ℕ)
  unprotect_rtcp s packet = elim s.session [
    | none ↦ none
    | some policy ↦ lib.unprotect_rtcp policy packet
  ]
