-- ===== src/DtlsTransport/Keys.antt =====
-- `CheckRemoteCertificate`, `ExtractSrtpParams` and `SetupSRTP` of dtls_transport.cpp.
pub mod Layout
use Prim.Native.String.{String}
use webrtc_stream_server.Prelude.{
  ℕ, ◌+◌, ◌*◌, Bool, true, false, not, Option, none, some, List, [], ◌∷◌, ◌++◌, if◌then◌else◌,
  length, take, drop, slice, ◌==◌, ◌&&◌,
}
use webrtc_stream_server.DtlsContext.{
  Hash, sha1, sha224, sha256, sha384, sha512, unknown_hash, same_hash,
}
use webrtc_stream_server.SrtpSession.{
  CipherSuite, suite_none, suite_aes_cm_128_hmac_sha1_80, suite_aes_cm_128_hmac_sha1_32,
  suite_aead_aes_128_gcm, suite_aead_aes_256_gcm, CipherSuiteKeySaltLength,
  get_suite_key_salt_length,
}
use webrtc_stream_server.SrtpSession.Names.{get_cipher_suite_from_string}
use webrtc_stream_server.DtlsTransport.{
  Setup, active, passive, act_pass, unknown_setup, Ssl, DtlsTransport, Event, dtls_setup,
}

-- `memcmp`, on as many bytes as the first list has.
unfoldable pub same_bytes : List ℕ → List ℕ → Bool
same_bytes [] bytes = true
same_bytes (x ∷ xs) [] = false
same_bytes (x ∷ xs) (b ∷ bs) = (x == b) && same_bytes xs bs

unfoldable pub is_active : Setup → Bool
is_active active = true
is_active passive = false
is_active act_pass = false
is_active unknown_setup = false

abbrev pub max_length : ℕ
max_length = 44

-- The two master keys, the local one first: each is a key of the material and a salt of it.
unfoldable pub master_keys : Bool → CipherSuiteKeySaltLength → List ℕ → List ℕ × List ℕ
master_keys is_client keysalt material =
    let key = keysalt.key_length in
    let salt = keysalt.salt_length in
    let first = slice material 0 key ++ slice material (key + key) salt in
    let second = slice material key key ++ slice material (key + key + salt) salt in
    if is_client then (first, second) else (second, first)

unfoldable pub is_none : CipherSuite → Bool
is_none suite_none = true
is_none suite_aes_cm_128_hmac_sha1_80 = false
is_none suite_aes_cm_128_hmac_sha1_32 = false
is_none suite_aead_aes_128_gcm = false
is_none suite_aead_aes_256_gcm = false

module _ {S Cert : Type 0} (lib : Ssl S Cert) where
  unfoldable pub compare_digest : DtlsTransport S → Option (List ℕ) → Bool
  compare_digest t none = false
  compare_digest t (some fingerprint) = same_bytes fingerprint t.remote_fingerprint

  unfoldable pub check_certificate : DtlsTransport S → Option Cert → Bool
  check_certificate t none = false
  check_certificate t (some certificate) =
      if same_hash t.remote_hash unknown_hash
      then false
      else compare_digest t (lib.digest certificate t.remote_hash)

  unfoldable pub check_remote_certificate : DtlsTransport S → S → Bool
  check_remote_certificate t s = check_certificate t (lib.get_peer_certificate s)

  unfoldable pub with_material : DtlsTransport S → CipherSuite → Option (List ℕ) → List Event × Bool
  with_material t suite none = ([], false)
  with_material t suite (some material) =
      let (local_key, remote_key) =
        master_keys (is_active t.setup) (get_suite_key_salt_length suite) material in
      (dtls_setup suite local_key remote_key ∷ [], true)

  unfoldable pub with_profile : DtlsTransport S → S → Option String → List Event × Bool
  with_profile t s none = ([], false)
  with_profile t s (some name) =
      let suite = get_cipher_suite_from_string name in
      if is_none suite
      then ([], false)
      else with_material t suite (lib.export_keying_material s (max_length * 2))

  unfoldable pub extract_srtp_params : DtlsTransport S → S → List Event × Bool
  extract_srtp_params t s = with_profile t s (lib.get_selected_srtp_profile s)

  -- A certificate that fails its check is logged; the result is 1 on every path.
  unfoldable pub setup_srtp : DtlsTransport S → S → List Event × ℕ
  setup_srtp t s = let certified = check_remote_certificate t s in ((extract_srtp_params t s).0, 1)
