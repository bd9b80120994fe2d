-- ===== src/DtlsTransport.antt =====
-- dtls_transport.h and dtls_transport.cpp. OpenSSL is the parameter `Ssl`, with `S` the state of a
-- connection and its two buffers. A call that may run the handshake is an `Interaction`: OpenSSL stops
-- at each notice that `OnSSLInfo` gets, and goes on from the state which that leaves.
pub mod Client
pub mod Fingerprint
pub mod Handshake
pub mod Keys
pub mod Roles
use Prim.Native.String.{String}
use text.Mathlib.Text.{◌==◌ as str_eq}
use webrtc_stream_server.Prelude.{
  ℕ, Bool, true, false, Option, none, some, List, [], ◌∷◌, if◌then◌else◌, replicate,
}
use webrtc_stream_server.DtlsContext.{Hash, unknown_hash}
use webrtc_stream_server.SrtpSession.{CipherSuite}

pub data Setup : Type 0 where
  active passive act_pass unknown_setup : Setup

unfoldable pub string_to_setup : String → Option Setup
string_to_setup s =
    if str_eq s "active"
    then some active
    else if str_eq s "passive"
    then some passive
    else if str_eq s "actpass"
    then some act_pass
    else none

-- `none` is the exception of `at`.
unfoldable pub setup_to_string : Setup → Option String
setup_to_string active = some "active"
setup_to_string passive = some "passive"
setup_to_string act_pass = some "actpass"
setup_to_string unknown_setup = none

-- What `where` says, bit by bit.
pub record Notice : Type 0 where
  pub is_loop : Bool
  pub is_alert : Bool
  pub is_exit : Bool
  pub is_handshake_start : Bool
  pub is_handshake_done : Bool

-- The Boolean at the end says that the call failed other than by waiting for data.
pub data Interaction (S : Type 0) : Type 0 where
  finished : S → Bool → Interaction S
  notified : S → Notice → (S → Interaction S) → Interaction S

-- `Cert` is a certificate; `none` and a false answer are errors.
pub record Ssl (S Cert : Type 0) : Type 0 where
  pub ssl_new : Option S
  pub read_bio_new : Bool
  pub write_bio_new : Bool
  pub set_connect_state : S → S
  pub set_accept_state : S → S
  pub do_handshake : S → Interaction S
  pub handle_timeout : S → Interaction S
  pub get_timeout : S → Option ℕ
  pub bio_write : S → List ℕ → S
  pub ssl_read : S → Interaction S
  pub bio_pending : S → Bool
  pub bio_read : S → S × List ℕ
  pub received_shutdown : S → Bool
  pub ssl_clear : S → S
  pub get_peer_certificate : S → Option Cert
  pub digest : Cert → Hash → Option (List ℕ)
  pub get_selected_srtp_profile : S → Option String
  pub export_keying_material : S → ℕ → Option (List ℕ)

pub record DtlsTransport (S : Type 0) : Type 0 where
  pub ssl : Option S
  pub setup : Setup
  pub remote_fingerprint : List ℕ
  pub remote_hash : Hash
  pub inited : Bool
  pub has_timer : Bool

-- What the listener and the timer are told.
pub data Event : Type 0 where
  dtls_setup : CipherSuite → List ℕ → List ℕ → Event
  dtls_error : Event
  dtls_shutdown : Event
  send_data : List ℕ → Event
  async_wait : ℕ → Event

-- The constructor leaves `inited_` as it finds it.
unfoldable pub create : {S : Type 0} → Bool → DtlsTransport S
create inited = record {
  ssl = none;
  setup = unknown_setup;
  remote_fingerprint = replicate 64 0;
  remote_hash = unknown_hash;
  inited = inited;
  has_timer = false;
}

unfoldable pub get_local_setup : {S : Type 0} → DtlsTransport S → Option String
get_local_setup t = setup_to_string t.setup

unfoldable pub stop : {S : Type 0} → DtlsTransport S → DtlsTransport S
stop t = record t { inited = false; has_timer = false; ssl = none }

module _ {S Cert : Type 0} (lib : Ssl S Cert) where
  unfoldable pub attach : DtlsTransport S → Option S → DtlsTransport S × Bool
  attach t none = (record t { ssl = none }, false)
  attach t (some s) =
      if lib.read_bio_new
      then if lib.write_bio_new
        then (record t { ssl = some s }, true)
        else (record t { ssl = none }, false)
      else (record t { ssl = none }, false)

  unfoldable pub init : DtlsTransport S → DtlsTransport S × Bool
  init t = attach t lib.ssl_new
