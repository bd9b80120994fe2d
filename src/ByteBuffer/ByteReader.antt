-- ===== src/ByteBuffer/ByteReader.antt =====
-- `ByteReader` of byte_buffer.h and byte_buffer.cpp. A method that answers false leaves the reader as
-- it was: `none` stands for false, and `some` carries the reader after a method that answers true.
-- The out-pointers that the methods test for null are results here, so that test has no branch.
pub mod Unread
pub mod Advance
use webrtc_stream_server.Prelude.{
  ℕ, ◌+◌, ◌-◌, List, ◌++◌, Option, none, some, u64, sub64, ltb, if◌then◌else◌, take, drop,
}
use webrtc_stream_server.ByteBuffer.{
  load_uint8_be, load_uint16_be, load_uint24_be, load_uint32_be, load_uint64_be,
}

pub record ByteReader : Type 0 where
  pub bytes : List ℕ
  pub start : ℕ
  pub end_ : ℕ

unfoldable pub create : List ℕ → ℕ → ByteReader
create bytes len = record { bytes = bytes; start = 0; end_ = len }

unfoldable pub left : ByteReader → ℕ
left r = sub64 r.end_ r.start

unfoldable pub current_data : ByteReader → List ℕ
current_data r = drop r.start r.bytes

unfoldable pub consume : ByteReader → ℕ → Option ByteReader
unfolding left
consume r n = if ltb (left r) n then none else some (record r { start = u64 (r.start + n) })

unfoldable pub back : ByteReader → ℕ → Option ByteReader
back r n = if ltb r.start n then none else some (record r { start = r.start - n })

-- Each read method tests `Left`, loads at `bytes_ + start_`, and advances by its width.
unfoldable pub read_uint8 : ByteReader → Option (ℕ × ByteReader)
unfolding left current_data
read_uint8 r =
    if ltb (left r) 1
    then none
    else some (load_uint8_be (current_data r), record r { start = u64 (r.start + 1) })

unfoldable pub read_uint16 : ByteReader → Option (ℕ × ByteReader)
unfolding left current_data
read_uint16 r =
    if ltb (left r) 2
    then none
    else some (load_uint16_be (current_data r), record r { start = u64 (r.start + 2) })

unfoldable pub read_uint24 : ByteReader → Option (ℕ × ByteReader)
unfolding left current_data
read_uint24 r =
    if ltb (left r) 3
    then none
    else some (load_uint24_be (current_data r), record r { start = u64 (r.start + 3) })

unfoldable pub read_uint32 : ByteReader → Option (ℕ × ByteReader)
unfolding left current_data
read_uint32 r =
    if ltb (left r) 4
    then none
    else some (load_uint32_be (current_data r), record r { start = u64 (r.start + 4) })

unfoldable pub read_uint64 : ByteReader → Option (ℕ × ByteReader)
unfolding left current_data
read_uint64 r =
    if ltb (left r) 8
    then none
    else some (load_uint64_be (current_data r), record r { start = u64 (r.start + 8) })

-- `ReadBytes` fills the caller's buffer with `len` bytes.
unfoldable pub read_bytes : ByteReader → ℕ → Option (List ℕ × ByteReader)
unfolding left current_data
read_bytes r len =
    if ltb (left r) len
    then none
    else some (take len (current_data r), record r { start = u64 (r.start + len) })

-- `ReadString` appends to the caller's string `val`.
unfoldable pub read_string : ByteReader → List ℕ → ℕ → Option (List ℕ × ByteReader)
unfolding left current_data
read_string r val len =
    if ltb (left r) len
    then none
    else some (val ++ take len (current_data r), record r { start = u64 (r.start + len) })
