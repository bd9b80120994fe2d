-- ===== src/Crc32.antt =====
-- crc32.h and crc32.cpp.
use webrtc_stream_server.Prelude.{
  ℕ, zero, suc, ◌/◌, ◌%◌, bit_and, bit_xor, List, [], ◌∷◌, ◌==◌, if◌then◌else◌, get_or, take,
}

abbrev pub crc32_polynomial : ℕ
crc32_polynomial = 0xEDB88320

-- `for (size_t j = 0; j < 8; ++j)`, by the rounds that are left.
unfoldable pub table_entry : ℕ → ℕ → ℕ
table_entry zero c = c
table_entry (suc rounds) c =
    table_entry rounds (if c % 2 == 1 then bit_xor crc32_polynomial (c / 2) else c / 2)

-- The entries from `i` on, for the rounds of the outer loop that are left.
unfoldable pub load_crc32_table : ℕ → ℕ → List ℕ
load_crc32_table zero i = []
load_crc32_table (suc rounds) i = table_entry 8 i ∷ load_crc32_table rounds (suc i)

abbrev pub update : List ℕ → ℕ → List ℕ → ℕ
update crc32_table c [] = c
update crc32_table c (byte ∷ bytes) =
    update crc32_table (bit_xor (get_or crc32_table (bit_and (bit_xor c byte) 0xFF) 0) (c / 256))
      bytes

-- Over the first `size` bytes.
unfoldable pub calculate : List ℕ → ℕ → ℕ
unfolding load_crc32_table
calculate bytes size =
    bit_xor (update (load_crc32_table 256 0) 0xFFFFFFFF (take size bytes)) 0xFFFFFFFF
