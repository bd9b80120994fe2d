-- ===== src/StunMessage.antt =====
-- stun_message.h and stun_message.cpp. The HMAC of the cryptographic library is the parameter `hmac`,
-- from a key and the bytes to its digest. A datagram is `data` with what lies behind it in memory.
pub mod Attributes
use webrtc_stream_server.Prelude.{
  ℕ, zero, suc, ◌+◌, ◌-◌, ◌/◌, ◌%◌, ◌^◌, bit_xor, Bool, true, false, ◌&&◌, List, [], ◌∷◌, Option,
  none, some, ◌>>=◌, if◌then◌else◌, u16, sub64, ltb, leb, ◌==◌, length, take, drop, slice, write_at,
  get_or,
}
use webrtc_stream_server.ByteBuffer.{load_uint32_be, store_uint16_be}
use webrtc_stream_server.ByteBuffer.ByteReader
use webrtc_stream_server.ByteBuffer.ByteReader.{
  ByteReader, read_uint16, read_uint32, read_string, current_data,
}
use webrtc_stream_server.ByteBuffer.ByteWriter
use webrtc_stream_server.ByteBuffer.ByteWriter.{
  ByteWriter, used, write_uint8, write_uint16, write_uint32, write_bytes, write_string,
}
use webrtc_stream_server.Crc32.{calculate}

abbrev pub stun_attribute_header_size : ℕ
stun_attribute_header_size = 4

abbrev pub stun_header_size : ℕ
stun_header_size = 20

abbrev pub stun_transaction_id_length : ℕ
stun_transaction_id_length = 12

abbrev pub stun_magic_cookie : ℕ
stun_magic_cookie = 0x2112A442

abbrev pub sha1_result_length : ℕ
sha1_result_length = 20

-- An endpoint: whether it is one of IPv4, its address, and its port.
pub record Endpoint : Type 0 where
  pub is_v4 : Bool
  pub address : ℕ
  pub port : ℕ

pub record StunMessage : Type 0 where
  pub transaction_id : List ℕ
  pub has_use_candidate : Bool
  pub local_ufrag : List ℕ
  pub local_password : List ℕ
  pub remote_ufrag : List ℕ

unfoldable pub create : List ℕ → List ℕ → List ℕ → StunMessage
create local_ufrag local_password remote_ufrag = record {
  transaction_id = [];
  has_use_candidate = false;
  local_ufrag = local_ufrag;
  local_password = local_password;
  remote_ufrag = remote_ufrag;
}

unfoldable pub equal_bytes : List ℕ → List ℕ → Bool
equal_bytes [] [] = true
equal_bytes (x ∷ xs) (y ∷ ys) = x == y && equal_bytes xs ys
equal_bytes [] (y ∷ ys) = false
equal_bytes (x ∷ xs) [] = false

unfoldable pub starts_with : List ℕ → List ℕ → Bool
starts_with xs prefix = equal_bytes (take (length prefix) xs) prefix

unfoldable pub ends_with : List ℕ → List ℕ → Bool
ends_with xs suffix =
    leb (length suffix) (length xs) && equal_bytes (drop (length xs - length suffix) xs) suffix

-- What the loop over the attributes has found: the use of the candidate, the place of the integrity
-- attribute, and whether there is a fingerprint.
pub record Found : Type 0 where
  pub use_candidate : Bool
  pub integrity_start : Option ℕ
  pub fingerprint : Bool

-- The switch over the type of an attribute whose header is read; `r` stands at its value.
unfoldable pub read_attribute : StunMessage → List ℕ → ByteReader → ℕ → ℕ → Found → Option Found
read_attribute m bytes r attr_type attr_length found =
    let user_name = take attr_length (current_data r) in
    let named = starts_with user_name m.local_ufrag && ends_with user_name m.remote_ufrag in
    let announced = load_uint32_be (current_data r) in
    let computed = bit_xor (calculate bytes (r.start - stun_attribute_header_size)) 0x5354554e in
    if attr_type == 0x0006
    then (if named then some found else none)
    else if attr_type == 0x0008
    then some (record found { integrity_start = some (r.start - stun_attribute_header_size) })
    else if attr_type == 0x8028
    then (if announced == computed then some (record found { fingerprint = true }) else none)
    else if attr_type == 0x0025
    then some (record found { use_candidate = true })
    else if attr_type == 0x8029
    then none
    else some found

-- The padding, in sixteen bits.
unfoldable pub padded : ℕ → ℕ
padded attr_length =
    if attr_length % 4 == 0 then attr_length else u16 (attr_length + (4 - attr_length % 4))

-- What the loop over the attributes gives: all it has found, a refusal, or no end within its rounds.
pub data Scanned : Type 0 where
  all_read : Found → Scanned
  refused unfinished : Scanned

-- A round of the loop: the header of an attribute, its switch, and the advance behind its padding.
unfoldable pub read_round : StunMessage → List ℕ → ByteReader → Found → Option (Found × ByteReader)
read_round m bytes r found = do
  (attr_type, r) ← read_uint16 r
  (attr_length, r) ← read_uint16 r
  found ← read_attribute m bytes r attr_type attr_length found
  r ← ByteReader.consume r (padded attr_length)
  some (found, r)

unfoldable pub after_round : (ByteReader → Found → Scanned) → Option (Found × ByteReader) → Scanned
after_round rest none = refused
after_round rest (some (found, r)) = rest r found

-- `while (reader.Left() > 0)`, by the rounds that are left.
unfoldable pub read_attributes : StunMessage → List ℕ → ℕ → ByteReader → Found → Scanned
read_attributes m bytes zero r found = unfinished
read_attributes m bytes (suc fuel) r found =
    let round = after_round (read_attributes m bytes fuel) (read_round m bytes r found) in
    if ltb 0 (ByteReader.left r) then round else all_read found

-- `Parse` gives the loop more rounds than there are bytes, so that it is never `unfinished`.
unfoldable pub found_of : Scanned → Option Found
found_of (all_read found) = some found
found_of refused = none
found_of unfinished = none

module _ (hmac : List ℕ → List ℕ → List ℕ) where
  -- The check of the integrity, with the length field that it is computed over.
  unfoldable pub check_integrity : StunMessage → List ℕ → ℕ → Found → Bool
  check_integrity m bytes size found = elim found.integrity_start [
    | none ↦ true
    | some start ↦
        let patched =
          if found.fingerprint then write_at bytes 2 (store_uint16_be (sub64 size 28)) else bytes in
        equal_bytes (slice patched (start + stun_attribute_header_size) sha1_result_length)
          (hmac m.local_password (take start patched))
  ]

  unfoldable pub parse : StunMessage → List ℕ → ℕ → Option StunMessage
  parse m bytes size = do
    (type, r) ← read_uint16 (ByteReader.create bytes size)
    (len, r) ← read_uint16 r
    (magic_cookie, r) ← read_uint32 r
    r ← (if magic_cookie == stun_magic_cookie then some r else none)
    (transaction_id, r) ← read_string r m.transaction_id stun_transaction_id_length
    found ← found_of (
        read_attributes m bytes (suc size) r (record {
          use_candidate = m.has_use_candidate;
          integrity_start = none;
          fingerprint = false;
        }))
    (if check_integrity m bytes size found
        then some
            (record m { transaction_id = transaction_id; has_use_candidate = found.use_candidate })
        else none)

unfoldable pub is_stun : List ℕ → ℕ → Bool
is_stun bytes size =
    leb 20 size
    && (ltb (get_or bytes 0 0) 3 && (load_uint32_be (drop 4 bytes) == stun_magic_cookie))

-- `StoreUInt16BE(data_.get() + 2, …)`, behind the writer's back.
unfoldable pub store_length : ByteWriter → ℕ → ByteWriter
store_length w len = record w { bytes = write_at w.bytes 2 (store_uint16_be len) }

unfoldable pub write_mapped_address : Endpoint → ByteWriter → Option ByteWriter
write_mapped_address ep w =
    let written = (do
      w ← write_uint16 w 0x0020
      w ← write_uint16 w 8
      w ← write_uint8 w 0
      w ← write_uint8 w 1
      w ← write_uint16 w (bit_xor ep.port (stun_magic_cookie / 2 ^ 16))
      w ← write_uint32 w (bit_xor ep.address stun_magic_cookie)
      some w) in
    if ep.is_v4 then written else some w

module _ (hmac : List ℕ → List ℕ → List ℕ) where
  -- `fresh` is what `new` returns for the buffer of the response.
  unfoldable pub create_response : StunMessage → Endpoint → List ℕ → Option ByteWriter
  create_response m ep fresh =
      let size = stun_header_size + 12 + 24 + 8 in
      do
        w ← write_uint16 (ByteWriter.create fresh size) 0x0101
        w ← write_uint16 w (size - stun_header_size)
        w ← write_uint32 w stun_magic_cookie
        w ← write_string w m.transaction_id
        w ← write_mapped_address ep w
        w ← some (store_length w (12 + 24))
        result ← some (hmac m.local_password (take (used w) w.bytes))
        w ← write_uint16 w 0x0008
        w ← write_uint16 w sha1_result_length
        w ← write_bytes w (take sha1_result_length result)
        w ← some (store_length w (12 + 24 + 8))
        crc32 ← some (calculate w.bytes (used w))
        w ← write_uint16 w 0x8028
        w ← write_uint16 w 4
        w ← write_uint32 w (bit_xor crc32 0x5354554e)
        some w
