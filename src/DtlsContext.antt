-- ===== src/DtlsContext.antt =====
-- dtls_context.h and dtls_context.cpp: the names of hash functions and the fingerprints of the server's
-- certificate. `digest` is `X509_digest` of OpenSSL on that certificate, empty when it fails; the key,
-- the certificate and the context of the library are calls of OpenSSL.
use Prim.Native.String.{String}
use text.Mathlib.Text.{◌==◌ as str_eq}
use webrtc_stream_server.Prelude.{
  ℕ, ◌+◌, ◌-◌, ◌*◌, ◌/◌, ◌%◌, Bool, true, false, Option, none, some, List, [], ◌∷◌, ◌++◌,
  if◌then◌else◌, ltb, length, take, ◌==◌,
}

pub data Hash : Type 0 where
  sha1 sha224 sha256 sha384 sha512 unknown_hash : Hash

unfoldable pub get_hash_from_string : String → Hash
get_hash_from_string hash_name =
    if str_eq hash_name "sha-1"
    then sha1
    else if str_eq hash_name "sha-224"
    then sha224
    else if str_eq hash_name "sha-256"
    then sha256
    else if str_eq hash_name "sha-384"
    then sha384
    else if str_eq hash_name "sha-512"
    then sha512
    else unknown_hash

unfoldable pub get_string_from_hash : Hash → String
get_string_from_hash sha1 = "sha-1"
get_string_from_hash sha224 = "sha-224"
get_string_from_hash sha256 = "sha-256"
get_string_from_hash sha384 = "sha-384"
get_string_from_hash sha512 = "sha-512"
get_string_from_hash unknown_hash = ""

-- A digit of `%X`, and the two of `%.2X` for a byte; characters are their codes.
unfoldable pub hex_digit : ℕ → ℕ
hex_digit d = if ltb d 10 then 48 + d else 55 + d

unfoldable pub hex_byte : ℕ → List ℕ
hex_byte b = hex_digit (b / 16) ∷ hex_digit (b % 16) ∷ []

abbrev pub colon : ℕ
colon = 58

-- The loop of `sprintf`; the zero that is then written over the last colon ends the string.
unfoldable pub print_all : List ℕ → List ℕ
print_all [] = []
print_all (b ∷ bs) = hex_byte b ++ (colon ∷ print_all bs)

unfoldable pub print_fingerprint : List ℕ → List ℕ
print_fingerprint fingerprint = take (length fingerprint * 3 - 1) (print_all fingerprint)

abbrev pub available_hashes : List Hash
available_hashes = sha1 ∷ sha224 ∷ sha256 ∷ sha384 ∷ sha512 ∷ []

unfoldable pub keep_fingerprint :
    Hash → List ℕ → Option (List (Hash × List ℕ)) → Option (List (Hash × List ℕ))
keep_fingerprint hash fingerprint none = none
keep_fingerprint hash fingerprint (some others) =
    if length fingerprint == 0 then none else some ((hash, print_fingerprint fingerprint) ∷ others)

-- The loop of `Initialize` over the hashes: one without a digest is an error.
unfoldable pub local_fingerprints : (Hash → List ℕ) → List Hash → Option (List (Hash × List ℕ))
local_fingerprints digest [] = some []
local_fingerprints digest (hash ∷ hashes) =
    keep_fingerprint hash (digest hash) (local_fingerprints digest hashes)

unfoldable pub same_hash : Hash → Hash → Bool
same_hash sha1 sha1 = true
same_hash sha224 sha224 = true
same_hash sha256 sha256 = true
same_hash sha384 sha384 = true
same_hash sha512 sha512 = true
same_hash unknown_hash unknown_hash = true
same_hash _ _ = false

-- `operator[]` of the map: a hash that is not there gives the empty string.
unfoldable pub get_certificate_fingerprint : List (Hash × List ℕ) → Hash → List ℕ
get_certificate_fingerprint [] hash = []
get_certificate_fingerprint ((h, fingerprint) ∷ others) hash =
    let rest = get_certificate_fingerprint others hash in
    if same_hash h hash then fingerprint else rest
