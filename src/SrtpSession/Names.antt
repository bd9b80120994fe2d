-- ===== src/SrtpSession/Names.antt =====
-- The names of the cipher suites in srtp_session.cpp.
use Prim.Native.String.{String}
use text.Mathlib.Text.{◌==◌ as str_eq}
use webrtc_stream_server.Prelude.{if◌then◌else◌}
use webrtc_stream_server.SrtpSession.{
  CipherSuite, suite_none, suite_aes_cm_128_hmac_sha1_80, suite_aes_cm_128_hmac_sha1_32,
  suite_aead_aes_128_gcm, suite_aead_aes_256_gcm,
}

unfoldable pub get_cipher_suite_from_string : String → CipherSuite
get_cipher_suite_from_string str =
    if str_eq str "SRTP_AES128_CM_SHA1_80"
    then suite_aes_cm_128_hmac_sha1_80
    else if str_eq str "SRTP_AES128_CM_SHA1_32"
    then suite_aes_cm_128_hmac_sha1_32
    else if str_eq str "SRTP_AEAD_AES_128_GCM"
    then suite_aead_aes_128_gcm
    else if str_eq str "SRTP_AEAD_AES_256_GCM"
    then suite_aead_aes_256_gcm
    else suite_none
