-- ===== src/ByteBuffer.antt =====
-- byte_buffer.h and byte_buffer.cpp: the big-endian loads and stores. A pointer is the list of the
-- bytes from it on; what lies behind the end of a buffer reads as 0.
pub mod Codec
pub mod ByteWriter
pub mod ByteReader
use webrtc_stream_server.Prelude.{ℕ, ◌+◌, ◌*◌, ◌/◌, ◌%◌, ◌^◌, List, [], ◌∷◌, u8, get_or}

-- The i-th byte of a little-endian integer, `((char*)&value)[i]`.
abbrev pub byte_of : ℕ → ℕ → ℕ
byte_of value i = value / 256 ^ i % 256

abbrev pub byte_at : List ℕ → ℕ → ℕ
byte_at bytes i = get_or bytes i 0

unfoldable pub load_uint8_be : List ℕ → ℕ
load_uint8_be bytes = byte_at bytes 0

unfoldable pub load_uint16_be : List ℕ → ℕ
load_uint16_be bytes = byte_at bytes 0 * 256 + byte_at bytes 1

unfoldable pub load_uint24_be : List ℕ → ℕ
load_uint24_be bytes = byte_at bytes 0 * 256 ^ 2 + byte_at bytes 1 * 256 + byte_at bytes 2

unfoldable pub load_uint32_be : List ℕ → ℕ
load_uint32_be bytes =
    byte_at bytes 0 * 256 ^ 3 + byte_at bytes 1 * 256 ^ 2 + byte_at bytes 2 * 256 + byte_at bytes 3

unfoldable pub load_uint64_be : List ℕ → ℕ
load_uint64_be bytes =
    byte_at bytes 0 * 256 ^ 7
    + byte_at bytes 1 * 256 ^ 6
    + byte_at bytes 2 * 256 ^ 5
    + byte_at bytes 3 * 256 ^ 4
    + byte_at bytes 4 * 256 ^ 3
    + byte_at bytes 5 * 256 ^ 2
    + byte_at bytes 6 * 256
    + byte_at bytes 7

-- What each store writes, lowest address first.
unfoldable pub store_uint8_be : ℕ → List ℕ
store_uint8_be value = u8 value ∷ []

unfoldable pub store_uint16_be : ℕ → List ℕ
store_uint16_be value = byte_of value 1 ∷ byte_of value 0 ∷ []

unfoldable pub store_uint24_be : ℕ → List ℕ
store_uint24_be value = byte_of value 2 ∷ byte_of value 1 ∷ byte_of value 0 ∷ []

unfoldable pub store_uint32_be : ℕ → List ℕ
store_uint32_be value = byte_of value 3 ∷ byte_of value 2 ∷ byte_of value 1 ∷ byte_of value 0 ∷ []

unfoldable pub store_uint64_be : ℕ → List ℕ
store_uint64_be value =
    byte_of value 7
    ∷ byte_of value 6
    ∷ byte_of value 5
    ∷ byte_of value 4
    ∷ byte_of value 3
    ∷ byte_of value 2
    ∷ byte_of value 1
    ∷ byte_of value 0
    ∷ []
