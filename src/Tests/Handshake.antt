-- ===== src/Tests/Handshake.antt =====
-- Runs over the DTLS transport of dtls_transport.cpp.
use webrtc_stream_server.Prelude.{
  ℕ, zero, suc, ◌+◌, ◌-◌, ◌*◌, ◌/◌, ◌%◌, ◌≡◌, ◌↔◌, ◌⊎◌, refl, true, false, Option, none, some, List,
  [], ◌∷◌, ◌++◌, replicate, if◌then◌else◌, ltb, arith, All, IsByte, ap,
}
use webrtc_stream_server.DtlsContext.{
  sha256, same_hash, hex_digit, hex_byte, print_fingerprint, get_string_from_hash,
}
use webrtc_stream_server.DtlsTransport.{active, passive, finished, Ssl, DtlsTransport}
use webrtc_stream_server.DtlsTransport.Keys.{check_remote_certificate}
use webrtc_stream_server.DtlsTransport.Roles.{Takes, Refuses, start-cases}
use webrtc_stream_server.DtlsTransport.Fingerprint.{set_remote_fingerprint}
use webrtc_stream_server.DtlsTransport.Fingerprint.Matching.{
  Scans, check_remote_certificate-set_remote_fingerprint, set_remote_fingerprint-none,
}

abbrev client_key : List ℕ
client_key = replicate 16 1

abbrev server_key : List ℕ
server_key = replicate 16 2

abbrev client_salt : List ℕ
client_salt = replicate 14 3

abbrev server_salt : List ℕ
server_salt = replicate 14 4

-- The digest of the certificate.
abbrev certified : List ℕ
certified = 1 ∷ 2 ∷ 255 ∷ []

-- Keys of 16 bytes and salts of 14, and the rest of 88 bytes.
abbrev exported : List ℕ
exported = client_key ++ (server_key ++ (client_salt ++ (server_salt ++ replicate 28 0)))

-- A library whose connections are numbers, and certificates their own digests.
abbrev ssl : Ssl ℕ (List ℕ)
ssl = record {
  ssl_new = some 0;
  read_bio_new = true;
  write_bio_new = true;
  set_connect_state = λ s. s;
  set_accept_state = λ s. s;
  do_handshake = λ s. finished (s + 1) false;
  handle_timeout = λ s. finished s false;
  get_timeout = λ s. some 1000;
  bio_write = λ s bytes. s;
  ssl_read = λ s. finished s false;
  bio_pending = λ s. false;
  bio_read = λ s. (s, []);
  received_shutdown = λ s. false;
  ssl_clear = λ s. s;
  get_peer_certificate = λ s. some certified;
  digest = λ certificate hash. some certificate;
  get_selected_srtp_profile = λ s. some "SRTP_AES128_CM_SHA1_80";
  export_keying_material = λ s n. some exported;
}

abbrev client : DtlsTransport ℕ
client = record {
  ssl = some 0;
  setup = active;
  remote_fingerprint = replicate 64 0;
  remote_hash = sha256;
  inited = false;
  has_timer = false;
}

abbrev server : DtlsTransport ℕ
server = record client { setup = passive }

start-cases_example : Takes ssl client "actpass" ⊎ Refuses ssl client "actpass"
start-cases_example = start-cases ssl client "actpass"

abbrev digit_value : ℕ → ℕ
digit_value c = if ltb c 58 then c - 48 else c - 55

-- `sscanf` on two upper-case digits.
abbrev scan : List ℕ → Option ℕ
scan [] = none
scan (h ∷ []) = some (digit_value h)
scan (h ∷ l ∷ rest) = some (16 * digit_value h + digit_value l)

digit_value-hex_digit : (d : ℕ) → digit_value (hex_digit d) ≡ d
unfolding hex_digit
digit_value-hex_digit d = ground arith

scan-Scans : Scans scan
unfolding Scans hex_byte
scan-Scans b byte =
    ap some (omega (arith, digit_value-hex_digit (b / 16), digit_value-hex_digit (b % 16)))

IsByte-replicate : (n : ℕ) → All IsByte (replicate n 2)
IsByte-replicate zero = tt
IsByte-replicate (suc n) = (omega arith, IsByte-replicate n)

check_remote_certificate-set_remote_fingerprint_example :
    (t' : DtlsTransport ℕ) × (set_remote_fingerprint scan client
        (get_string_from_hash sha256)
        (print_fingerprint certified)
      ≡ some t')
    × ((check_remote_certificate ssl t' 0 ≡ true) ↔ (certified ≡ certified))
unfolding same_hash
check_remote_certificate-set_remote_fingerprint_example =
    check_remote_certificate-set_remote_fingerprint ssl scan scan-Scans client refl sha256 1
      (2 ∷ 255 ∷ []) certified 0 certified refl (omega arith, (omega arith, (omega arith, tt)))
      (omega arith) refl refl refl

set_remote_fingerprint-none_example :
    set_remote_fingerprint scan client "sha-512" (print_fingerprint (1 ∷ replicate 63 2)) ≡ none
set_remote_fingerprint-none_example =
    set_remote_fingerprint-none ssl scan scan-Scans client refl "sha-512" 1 (replicate 63 2)
      (omega arith, IsByte-replicate 63) (omega arith)
