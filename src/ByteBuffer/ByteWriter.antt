-- ===== src/ByteBuffer/ByteWriter.antt =====
-- `ByteWriter` of byte_buffer.h and byte_buffer.cpp. A method that answers false leaves the writer as
-- it was: `none` stands for false, and `some` carries the writer after a method that answers true.
pub mod Written
pub mod Sequence
use webrtc_stream_server.Prelude.{
  ℕ, ◌+◌, List, Option, none, some, u64, sub64, ltb, if◌then◌else◌, length, write_at,
}
use webrtc_stream_server.ByteBuffer.{
  store_uint8_be, store_uint16_be, store_uint24_be, store_uint32_be, store_uint64_be,
}

pub record ByteWriter : Type 0 where
  pub bytes : List ℕ
  pub len : ℕ
  pub size : ℕ

unfoldable pub create : List ℕ → ℕ → ByteWriter
create bytes len = record { bytes = bytes; len = 0; size = len }

unfoldable pub left : ByteWriter → ℕ
left w = sub64 w.size w.len

unfoldable pub used : ByteWriter → ℕ
used w = w.len

-- Each write method tests `Left`, stores at `bytes_ + len_`, and advances by its width.
unfoldable pub write_uint8 : ByteWriter → ℕ → Option ByteWriter
unfolding left
write_uint8 w val =
    if ltb (left w) 1
    then none
    else some
        (record w { bytes = write_at w.bytes w.len (store_uint8_be val); len = u64 (w.len + 1) })

unfoldable pub write_uint16 : ByteWriter → ℕ → Option ByteWriter
unfolding left
write_uint16 w val =
    if ltb (left w) 2
    then none
    else some
        (record w { bytes = write_at w.bytes w.len (store_uint16_be val); len = u64 (w.len + 2) })

unfoldable pub write_uint24 : ByteWriter → ℕ → Option ByteWriter
unfolding left
write_uint24 w val =
    if ltb (left w) 3
    then none
    else some
        (record w { bytes = write_at w.bytes w.len (store_uint24_be val); len = u64 (w.len + 3) })

unfoldable pub write_uint32 : ByteWriter → ℕ → Option ByteWriter
unfolding left
write_uint32 w val =
    if ltb (left w) 4
    then none
    else some
        (record w { bytes = write_at w.bytes w.len (store_uint32_be val); len = u64 (w.len + 4) })

unfoldable pub write_uint64 : ByteWriter → ℕ → Option ByteWriter
unfolding left
write_uint64 w val =
    if ltb (left w) 8
    then none
    else some
        (record w { bytes = write_at w.bytes w.len (store_uint64_be val); len = u64 (w.len + 8) })

unfoldable pub write_bytes : ByteWriter → List ℕ → Option ByteWriter
unfolding left
write_bytes w val =
    if ltb (left w) (length val)
    then none
    else some (record w { bytes = write_at w.bytes w.len val; len = u64 (w.len + length val) })

unfoldable pub write_string : ByteWriter → List ℕ → Option ByteWriter
unfolding write_bytes
write_string w val = write_bytes w val

-- `Consume(int size)`: the signed argument is converted to `size_t` on both uses.
unfoldable pub consume : ByteWriter → ℕ → Option ByteWriter
unfolding left
consume w n = if ltb (left w) n then none else some (record w { len = u64 (w.len + n) })
