-- ===== src/ByteBuffer/ByteReader/Advance.antt =====
-- Chains of reads: a reader that comes out of one is valid, and has at least so many bytes less.
use webrtc_stream_server.Prelude.{
  ℕ, ◌+◌, ◌-◌, ◌≤◌, List, Option, none, some, ◌>>=◌, arith, u64, ltb, inl, inr, Bool-cases,
}
use webrtc_stream_server.ByteBuffer.{load_uint8_be, load_uint16_be, load_uint24_be, load_uint32_be}
use webrtc_stream_server.ByteBuffer.ByteReader.{
  ByteReader, left, current_data, consume, read_uint8, read_uint16, read_uint24, read_uint32,
}
use webrtc_stream_server.ByteBuffer.ByteReader.Unread.{IsValid, get}

-- The number of bytes that are left to read.
abbrev pub remaining : ByteReader → ℕ
remaining r = r.end_ - r.start

abbrev pub Moves : ByteReader → ℕ → ByteReader → Type 0
Moves r n r' = IsValid r' × (remaining r' + n ≤ remaining r)

abbrev pub Advances {ℓ} : {A : Type ℓ} → ByteReader → ℕ → Option (A × ByteReader) → Type 0
Advances r n none = Unit {0}
Advances r n (some (a, r')) = Moves r n r'

pub get-Advances {ℓ} :
    {A : Type ℓ} (r : ByteReader) (n : ℕ) (load : List ℕ → A)
    → IsValid r
    → Advances r n (get r n load)
unfolding get left
get-Advances r n load v = elim (Bool-cases (ltb (left r) n)) [
  | inl e ↦ rw e tt
  | inr e ↦
      rw e (
        record { within = ground arith; backed = ground arith; small = ground arith },
        ground arith,
      )
]

Advances-later {ℓ} :
    {A : Type ℓ} (r r' : ByteReader) (m n : ℕ) (o : Option (A × ByteReader))
    → remaining r' + m ≤ remaining r
    → Advances r' n o
    → Advances r (m + n) o
Advances-later r r' m n none h a = tt
Advances-later r r' m n (some (a, r'')) h g = (g.0, omega arith)

pub Advances-weaken {ℓ} :
    {A : Type ℓ} (r : ByteReader) (m n : ℕ) (o : Option (A × ByteReader))
    → n ≤ m
    → Advances r m o
    → Advances r n o
Advances-weaken r m n none h a = tt
Advances-weaken r m n (some (a, r'')) h g = (g.0, omega arith)

pub >>=-Advances {ℓ κ} :
    {A : Type ℓ} {B : Type κ} (r : ByteReader) (m n : ℕ) (o : Option (A × ByteReader))
    (f : A × ByteReader → Option (B × ByteReader))
    → Advances r m o
    → ((a : A) (r' : ByteReader) → IsValid r' → Advances r' n (f (a, r')))
    → Advances r (m + n) (o >>= f)
>>=-Advances r m n none f h k = tt
>>=-Advances r m n (some (a, r')) f h k = Advances-later r r' m n (f (a, r')) h.1 (k a r' h.0)

pub consume-Advances {κ} :
    {B : Type κ} (r : ByteReader) (size n : ℕ) (f : ByteReader → Option (B × ByteReader))
    → IsValid r
    → ((r' : ByteReader) → IsValid r' → Advances r' n (f r'))
    → Advances r (0 + n) (consume r size >>= f)
unfolding consume left
consume-Advances r size n f v k = elim (Bool-cases (ltb (left r) size)) [
  | inl e ↦ rw e tt
  | inr e ↦
      let r' : ByteReader = record r { start = u64 (r.start + size) } in
      let valid : IsValid r' = record {
        within = ground arith;
        backed = ground arith;
        small = ground arith;
      } in
      rw e (Advances-later r r' 0 n (f r') (ground arith) (k r' valid))
]

module _ (r : ByteReader) (v : IsValid r) where
  pub read_uint8-Advances : Advances r 1 (read_uint8 r)
  unfolding read_uint8 get left current_data
  read_uint8-Advances = get-Advances r 1 load_uint8_be v

  pub read_uint16-Advances : Advances r 2 (read_uint16 r)
  unfolding read_uint16 get left current_data
  read_uint16-Advances = get-Advances r 2 load_uint16_be v

  pub read_uint24-Advances : Advances r 3 (read_uint24 r)
  unfolding read_uint24 get left current_data
  read_uint24-Advances = get-Advances r 3 load_uint24_be v

  pub read_uint32-Advances : Advances r 4 (read_uint32 r)
  unfolding read_uint32 get left current_data
  read_uint32-Advances = get-Advances r 4 load_uint32_be v
