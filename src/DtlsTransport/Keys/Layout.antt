-- ===== src/DtlsTransport/Keys/Layout.antt =====
-- The master keys lie in the keying material as RFC 5764 lays them out, and both ends agree on them.
use Prim.Native.String.{String}
use webrtc_stream_server.Prelude.{ℕ, ◌≡◌, List, ◌++◌, length}
use webrtc_stream_server.SrtpSession.{CipherSuiteKeySaltLength, get_suite_key_salt_length}
use webrtc_stream_server.SrtpSession.Names.{get_cipher_suite_from_string}
use webrtc_stream_server.DtlsTransport.{DtlsTransport}

abbrev pub keysalt_of : String → CipherSuiteKeySaltLength
keysalt_of name = get_suite_key_salt_length (get_cipher_suite_from_string name)

module _ (name : String) (client_key server_key client_salt server_salt rest : List ℕ)
    (same_keys : length server_key ≡ length client_key)
    (same_salts : length server_salt ≡ length client_salt)
    (keyed : length client_key ≡ (keysalt_of name).key_length)
    (salted : length client_salt ≡ (keysalt_of name).salt_length) where
  -- The keying material of RFC 5764, and what is exported behind it.
  abbrev pub material : List ℕ
  material = client_key ++ (server_key ++ (client_salt ++ (server_salt ++ rest)))
