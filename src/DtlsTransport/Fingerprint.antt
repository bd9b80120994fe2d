-- ===== src/DtlsTransport/Fingerprint.antt =====
-- `SetRemoteFingerprint` of dtls_transport.cpp. `scan` is `sscanf` with the format `%02x`.
pub mod Printed
pub mod Matching
use Prim.Native.String.{String}
use webrtc_stream_server.Prelude.{
  ℕ, ◌+◌, ◌-◌, ◌/◌, ◌%◌, Bool, true, false, Option, none, some, List, [], ◌∷◌, ◌++◌, if◌then◌else◌,
  leb, ◌==◌, write_at, ◌>>=◌,
}
use webrtc_stream_server.DtlsContext.{colon, get_hash_from_string}
use webrtc_stream_server.DtlsTransport.{DtlsTransport}

abbrev pub evp_max_md_size : ℕ
evp_max_md_size = 64

unfoldable pub prepend : ℕ → List (List ℕ) → List (List ℕ)
prepend c [] = (c ∷ []) ∷ []
prepend c (part ∷ parts) = (c ∷ part) ∷ parts

-- What `strsep` gives, call by call.
unfoldable pub split : List ℕ → List (List ℕ)
split [] = [] ∷ []
split (c ∷ cs) = let rest = split cs in if c == colon then [] ∷ rest else prepend c rest

-- The bytes of an `unsigned int` in memory.
unfoldable pub little_endian : ℕ → List ℕ
little_endian value =
    (value % 256) ∷ (value / 256 % 256) ∷ (value / 65536 % 256) ∷ (value / 16777216 % 256) ∷ []

-- `sscanf` writes a whole `unsigned int`, which is more than a byte for a text with a sign. `none` is a write past the end of
-- the array.
unfoldable pub store_value : ℕ → Option ℕ → List ℕ → Option (List ℕ)
store_value pos none fingerprint = some fingerprint
store_value pos (some value) fingerprint =
    if leb (pos + 4) evp_max_md_size
    then some (write_at fingerprint pos (little_endian value))
    else none

unfoldable pub keep : {S : Type 0} → DtlsTransport S → Option (List ℕ) → Option (DtlsTransport S)
keep t none = none
keep t (some fingerprint) = some (record t { remote_fingerprint = fingerprint })

module _ (scan : List ℕ → Option ℕ) where
  unfoldable pub store_parts : ℕ → List (List ℕ) → List ℕ → Option (List ℕ)
  store_parts pos [] fingerprint = some fingerprint
  store_parts pos (value ∷ values) fingerprint =
      let rest : List ℕ → Option (List ℕ) = store_parts (pos + 1) values in
      if pos == evp_max_md_size - 1
      then some fingerprint
      else store_value pos (scan value) fingerprint >>= rest

  unfoldable pub set_remote_fingerprint :
      {S : Type 0} → DtlsTransport S → String → List ℕ → Option (DtlsTransport S)
  set_remote_fingerprint t hash fingerprint =
      keep (record t { remote_hash = get_hash_from_string hash })
        (store_parts 0 (split fingerprint) t.remote_fingerprint)
