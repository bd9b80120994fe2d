-- ===== src/Rtcp/Encoding/Parses.antt =====
-- Parsers that read the bytes they are given and leave the ones behind.
use webrtc_stream_server.Prelude.{
  ℕ, ◌+◌, ◌*◌, ◌/◌, ◌%◌, ◌^◌, ◌<◌, ◌≡◌, refl, ◌∙◌, List, [], ◌++◌, Option, some, ◌>>=◌, arith,
  append_assoc,
}
use webrtc_stream_server.ByteBuffer.{store_uint16_be, store_uint32_be}
use webrtc_stream_server.ByteBuffer.ByteReader.{ByteReader, read_uint16, read_uint32}
use webrtc_stream_server.ByteBuffer.ByteReader.Unread.{
  IsValid, unread, skip, Reads, read_uint16-Reads, read_uint32-Reads,
}

-- What a parser does with the bytes in front of a valid reader.
unfoldable pub Parses : {A : Type 0} → (ByteReader → Option (A × ByteReader)) → List ℕ → A → Type 0
Parses {A} parse bytes a =
    (r : ByteReader) (rest : List ℕ)
    → IsValid r
    → unread r ≡ bytes ++ rest
    → (r' : ByteReader) × Reads (parse r) a r' rest

pub Parses-bind :
    {A B : Type 0} (parse : ByteReader → Option (A × ByteReader))
    (next : A × ByteReader → Option (B × ByteReader)) (xs ys : List ℕ) (a : A) (b : B)
    → Parses parse xs a
    → Parses (λ r. next (a, r)) ys b
    → Parses (λ r. parse r >>= next) (xs ++ ys) b
unfolding Parses
Parses-bind parse next xs ys a b p q r rest v u =
    let (r1, (e1, v1, u1)) = p r (ys ++ rest) v (u ∙ append_assoc xs ys rest) in
    let (r2, (e2, v2, u2)) = q r1 rest v1 u1 in (r2, (rw e1 e2, v2, u2))

pub read_uint16-Parses : (n : ℕ) → n < 2 ^ 16 → Parses read_uint16 (store_uint16_be n) n
unfolding Parses store_uint16_be
read_uint16-Parses n h r rest v u =
    let (e, w, l) = read_uint16-Reads r v rest (n / 256 ^ 1 % 256) (n / 256 ^ 0 % 256) u in
    let same : n / 256 ^ 1 % 256 * 256 + n / 256 ^ 0 % 256 ≡ n = omega arith in
    (skip r 2, (rw (← same) e, w, l))

pub read_uint32-Parses : (n : ℕ) → n < 2 ^ 32 → Parses read_uint32 (store_uint32_be n) n
unfolding Parses store_uint32_be
read_uint32-Parses n h r rest v u =
    let (e, w, l) =
      read_uint32-Reads r v rest (n / 256 ^ 3 % 256) (n / 256 ^ 2 % 256) (n / 256 ^ 1 % 256)
        (n / 256 ^ 0 % 256) u in
    let same : n / 256 ^ 3 % 256 * 256 ^ 3
          + n / 256 ^ 2 % 256 * 256 ^ 2
          + n / 256 ^ 1 % 256 * 256
          + n / 256 ^ 0 % 256
        ≡ n =
      omega arith in
    (skip r 4, (rw (← same) e, w, l))

pub Parses-done : {A : Type 0} (a : A) → Parses (λ r. some (a, r)) [] a
unfolding Parses
Parses-done a r rest v u = (r, (refl, v, u))

pub Parses-map :
    {A B : Type 0} (parse : ByteReader → Option (A × ByteReader)) (f : A → B) (xs : List ℕ) (a : A)
    → Parses parse xs a
    → Parses (λ r. parse r >>= λ (a, r). some (f a, r)) xs (f a)
unfolding Parses
Parses-map parse f xs a p r rest v u =
    let (r1, (e1, v1, u1)) = p r rest v u in (r1, (rw e1 refl, v1, u1))
