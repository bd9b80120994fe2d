-- ===== src/ByteBuffer/Codec.antt =====
-- The loads and the stores of byte_buffer.cpp undo each other.
use webrtc_stream_server.Prelude.{ℕ, ◌%◌, ◌^◌, ◌≡◌, List, [], ◌∷◌, ◌++◌, arith, IsByte}
use webrtc_stream_server.ByteBuffer.{
  load_uint8_be, load_uint16_be, load_uint24_be, load_uint32_be, load_uint64_be, store_uint8_be,
  store_uint16_be, store_uint24_be, store_uint32_be, store_uint64_be,
}

-- Each store followed by the load of its width gives the value back, reduced to that width, whatever
-- follows in memory; so a value that fits the width comes back as it was.
pub load-store :
    (v : ℕ) (rest : List ℕ)
    → (load_uint8_be (store_uint8_be v ++ rest) ≡ v % 2 ^ 8)
      × (load_uint16_be (store_uint16_be v ++ rest) ≡ v % 2 ^ 16)
      × (load_uint24_be (store_uint24_be v ++ rest) ≡ v % 2 ^ 24)
      × (load_uint32_be (store_uint32_be v ++ rest) ≡ v % 2 ^ 32)
      × (load_uint64_be (store_uint64_be v ++ rest) ≡ v % 2 ^ 64)
unfolding load_uint8_be load_uint16_be load_uint24_be load_uint32_be load_uint64_be store_uint8_be
    store_uint16_be store_uint24_be store_uint32_be store_uint64_be
load-store v rest = (omega arith, omega arith, omega arith, omega arith, omega arith)

pub store-load_uint16 :
    (a b : ℕ) (rest : List ℕ)
    → IsByte a
    → IsByte b
    → store_uint16_be (load_uint16_be (a ∷ b ∷ rest)) ≡ a ∷ b ∷ []
unfolding load_uint16_be store_uint16_be
store-load_uint16 a b rest ha hb = ground arith

pub store-load_uint32 :
    (a b c d : ℕ) (rest : List ℕ)
    → IsByte a
    → IsByte b
    → IsByte c
    → IsByte d
    → store_uint32_be (load_uint32_be (a ∷ b ∷ c ∷ d ∷ rest)) ≡ a ∷ b ∷ c ∷ d ∷ []
unfolding load_uint32_be store_uint32_be
store-load_uint32 a b c d rest ha hb hc hd = ground arith
