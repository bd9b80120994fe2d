-- ===== src/ByteBuffer/ByteWriter/Written.antt =====
-- The writer seen as the list of the bytes that it has written.
use webrtc_stream_server.Prelude.{
  ℕ, ◌+◌, ◌^◌, ◌≤◌, ◌<◌, ◌≡◌, List, ◌++◌, Option, none, some, arith, length, u64, ltb, leb,
  if◌then◌else◌, ◌⊎◌, inl, inr, Bool-cases, take, write_at, length-write_at, take-write_at,
}
use webrtc_stream_server.ByteBuffer.{
  store_uint8_be, store_uint16_be, store_uint24_be, store_uint32_be, store_uint64_be,
}
use webrtc_stream_server.ByteBuffer.ByteWriter.{
  ByteWriter, left, write_uint8, write_uint16, write_uint24, write_uint32, write_uint64,
  write_bytes, write_string,
}

pub record IsValid (w : ByteWriter) : Type 0 where
  pub within : w.len ≤ w.size
  pub backed : w.size ≤ length w.bytes
  pub small : w.size < 2 ^ 64

abbrev pub written : ByteWriter → List ℕ
written w = take w.len w.bytes

-- The writer after `val`.
abbrev pub extend : ByteWriter → List ℕ → ByteWriter
extend w val = record w { bytes = write_at w.bytes w.len val; len = w.len + length val }

-- A write of `val`, the common form of the write methods.
unfoldable pub put : ByteWriter → List ℕ → Option ByteWriter
put w val =
    if ltb (left w) (length val)
    then none
    else some (record w { bytes = write_at w.bytes w.len val; len = u64 (w.len + length val) })

-- What fits in the rest of the buffer of a valid writer is appended to the bytes written so far, and
-- the writer stays valid over a buffer of the same length, so that no byte is stored outside.
pub put_lem :
    (w : ByteWriter) (val : List ℕ)
    → IsValid w
    → w.len + length val ≤ w.size
    → (put w val ≡ some (extend w val))
      × IsValid (extend w val)
      × (written (extend w val) ≡ written w ++ val)
      × (length (extend w val).bytes ≡ length w.bytes)
unfolding put left
put_lem w val v h =
    let e = length-write_at w.bytes w.len val (omega arith) in
    (
      ground arith,
      record { within = h; backed = omega arith; small = v.small },
      take-write_at w.bytes w.len val (omega arith),
      e,
    )

-- A valid writer refuses what does not fit.
pub put-none :
    (w : ByteWriter) (val : List ℕ) → IsValid w → w.size < w.len + length val → put w val ≡ none
unfolding put left
put-none w val v h = ground arith

-- The outcome of a write of `val`. If it fits: the writer with `val` behind what it had written, which is
-- valid over a buffer of the same length. Otherwise: a refusal.
unfoldable pub IsWrite : ByteWriter → List ℕ → Option ByteWriter → Type 0
IsWrite w val o =
    ((w.len + length val ≤ w.size)
      × (o ≡ some (extend w val))
      × IsValid (extend w val)
      × (written (extend w val) ≡ written w ++ val)
      × (length (extend w val).bytes ≡ length w.bytes))
    ⊎ ((w.size < w.len + length val) × (o ≡ none))

put-IsWrite : (w : ByteWriter) (val : List ℕ) → IsValid w → IsWrite w val (put w val)
unfolding IsWrite
put-IsWrite w val v = elim (Bool-cases (leb (w.len + length val) w.size)) [
  | inl fits ↦
      let h : w.len + length val ≤ w.size = ground arith in
      let (done, valid, appended, same) = put_lem w val v h in inl (h, done, valid, appended, same)
  | inr full ↦ inr (ground arith, put-none w val v (ground arith))
]

-- Every write method of a valid writer appends the bytes of its value when they fit the rest of the
-- buffer, and stores no byte outside: the buffer keeps its length. When they do not fit it refuses, and
-- there is no third case.
pub methods-IsWrite :
    (w : ByteWriter) (n : ℕ) (val : List ℕ)
    → IsValid w
    → IsWrite w (store_uint8_be n) (write_uint8 w n)
      × IsWrite w (store_uint16_be n) (write_uint16 w n)
      × IsWrite w (store_uint24_be n) (write_uint24 w n)
      × IsWrite w (store_uint32_be n) (write_uint32 w n)
      × IsWrite w (store_uint64_be n) (write_uint64 w n)
      × IsWrite w val (write_bytes w val)
      × IsWrite w val (write_string w val)
unfolding write_uint8 write_uint16 write_uint24 write_uint32 write_uint64 write_bytes write_string
    put left store_uint8_be store_uint16_be store_uint24_be store_uint32_be store_uint64_be
methods-IsWrite w n val v = (
  put-IsWrite w (store_uint8_be n) v,
  put-IsWrite w (store_uint16_be n) v,
  put-IsWrite w (store_uint24_be n) v,
  put-IsWrite w (store_uint32_be n) v,
  put-IsWrite w (store_uint64_be n) v,
  put-IsWrite w val v,
  put-IsWrite w val v,
)
