-- ===== src/ByteBuffer/ByteReader/Unread.antt =====
-- The reader seen as the list of the bytes that it has not read yet.
use webrtc_stream_server.Prelude.{
  ℕ, ◌+◌, ◌-◌, ◌*◌, ◌^◌, ◌≤◌, ◌<◌, ◌≡◌, refl, sym, ap, ◌∙◌, List, [], ◌∷◌, ◌++◌, Option, none, some,
  arith, u64, ltb, if◌then◌else◌, inl, inr, Bool-cases, ◌⊎◌, length, length-append, take, drop,
  take-append-drop, length-take, length-drop, drop-drop, drop-take, drop-append, append_assoc,
}
use webrtc_stream_server.ByteBuffer.{
  load_uint8_be, load_uint16_be, load_uint24_be, load_uint32_be, load_uint64_be,
}
use webrtc_stream_server.ByteBuffer.ByteReader.{
  ByteReader, left, current_data, read_uint8, read_uint16, read_uint24, read_uint32, read_uint64,
  read_bytes, read_string,
}

pub record IsValid (r : ByteReader) : Type 0 where
  pub within : r.start ≤ r.end_
  pub backed : r.end_ ≤ length r.bytes
  pub small : r.end_ < 2 ^ 64

abbrev pub unread : ByteReader → List ℕ
unread r = take (r.end_ - r.start) (drop r.start r.bytes)

-- The reader after `n` more bytes.
abbrev pub skip : ByteReader → ℕ → ByteReader
skip r n = record r { start = r.start + n }

pub length-unread : (r : ByteReader) → IsValid r → length (unread r) ≡ r.end_ - r.start
length-unread r v =
    omega
      (arith, length-take (r.end_ - r.start) (drop r.start r.bytes), length-drop r.start r.bytes)

pub skip-IsValid : (r : ByteReader) (n : ℕ) → IsValid r → n ≤ length (unread r) → IsValid (skip r n)
skip-IsValid r n v h =
    let e = length-unread r v in record { within = omega arith; backed = v.backed; small = v.small }

pub unread-skip : (r : ByteReader) (n : ℕ) → unread (skip r n) ≡ drop n (unread r)
unread-skip r n =
    ap (λ k. take k (drop (r.start + n) r.bytes)) (omega arith)
    ∙ ap (take (r.end_ - r.start - n)) (sym (drop-drop n r.start r.bytes))
    ∙ sym (drop-take n (r.end_ - r.start) (drop r.start r.bytes))

-- What a pointer to the current data sees: the unread bytes, and then what lies behind the end.
pub current_data-unread :
    (r : ByteReader) → current_data r ≡ unread r ++ drop (r.end_ - r.start) (drop r.start r.bytes)
unfolding current_data
current_data-unread r = sym (take-append-drop (r.end_ - r.start) (drop r.start r.bytes))

-- A read of `n` bytes by a load, the common form of the read methods.
unfoldable pub get {ℓ} : {A : Type ℓ} → ByteReader → ℕ → (List ℕ → A) → Option (A × ByteReader)
get r n load =
    if ltb (left r) n
    then none
    else some (load (current_data r), record r { start = u64 (r.start + n) })

-- A valid reader with at least `n` unread bytes gives a read of `n` bytes what the load sees at the
-- front of the unread bytes, takes exactly these off, and stays valid.
pub get_lem {ℓ} :
    {A : Type ℓ} (r : ByteReader) (n : ℕ) (load : List ℕ → A)
    → IsValid r
    → n ≤ length (unread r)
    → (get r n load ≡ some (load (current_data r), skip r n))
      × IsValid (skip r n)
      × (unread (skip r n) ≡ drop n (unread r))
unfolding get left
get_lem r n load v h =
    let e = length-unread r v in (ground arith, skip-IsValid r n v h, unread-skip r n)

-- A valid reader refuses a read of more bytes than are unread.
pub get-none {ℓ} :
    {A : Type ℓ} (r : ByteReader) (n : ℕ) (load : List ℕ → A)
    → IsValid r
    → length (unread r) < n
    → get r n load ≡ none
unfolding get left
get-none r n load v h = let e = length-unread r v in ground arith

-- The outcome of a read of `n` bytes. If so many are unread: the load of the bytes from the start on, and
-- the reader behind exactly these bytes, which is valid. Otherwise: a refusal.
unfoldable pub IsRead {ℓ} :
    {A : Type ℓ} → ByteReader → ℕ → (List ℕ → A) → Option (A × ByteReader) → Type ℓ
IsRead r n load o =
    ((n ≤ length (unread r))
      × (o ≡ some (load (drop r.start r.bytes), skip r n))
      × IsValid (skip r n)
      × (unread (skip r n) ≡ drop n (unread r)))
    ⊎ ((length (unread r) < n) × (o ≡ none))

get-IsRead {ℓ} :
    {A : Type ℓ} (r : ByteReader) (n : ℕ) (load : List ℕ → A)
    → IsValid r
    → IsRead r n load (get r n load)
unfolding IsRead current_data
get-IsRead r n load v = elim (Bool-cases (ltb (length (unread r)) n)) [
  | inl short ↦ inr (ground arith, get-none r n load v (ground arith))
  | inr enough ↦
      let h : n ≤ length (unread r) = ground arith in
      let (taken, valid, behind) = get_lem r n load v h in inl (h, taken, valid, behind)
]

-- Every read method of a valid reader takes exactly the bytes of its width off the unread ones, when
-- there are so many, and gives what they stand for; with fewer it refuses, and there is no third case.
pub methods-IsRead :
    (r : ByteReader) (val : List ℕ) (len : ℕ)
    → IsValid r
    → IsRead r 1 load_uint8_be (read_uint8 r)
      × IsRead r 2 load_uint16_be (read_uint16 r)
      × IsRead r 3 load_uint24_be (read_uint24 r)
      × IsRead r 4 load_uint32_be (read_uint32 r)
      × IsRead r 8 load_uint64_be (read_uint64 r)
      × IsRead r len (take len) (read_bytes r len)
      × IsRead r len (λ p. val ++ take len p) (read_string r val len)
unfolding read_uint8 read_uint16 read_uint24 read_uint32 read_uint64 read_bytes read_string get left
    current_data
methods-IsRead r val len v = (
  get-IsRead r 1 load_uint8_be v,
  get-IsRead r 2 load_uint16_be v,
  get-IsRead r 3 load_uint24_be v,
  get-IsRead r 4 load_uint32_be v,
  get-IsRead r 8 load_uint64_be v,
  get-IsRead r len (take len) v,
  get-IsRead r len (λ p. val ++ take len p) v,
)

-- A read that succeeds: its value, and the reader after it, whose unread bytes are `rest`.
abbrev pub Reads {ℓ} : {A : Type ℓ} → Option (A × ByteReader) → A → ByteReader → List ℕ → Type ℓ
Reads o a r rest = (o ≡ some (a, r)) × IsValid r × (unread r ≡ rest)

-- A read of the `n` bytes `xs` whose load depends on no byte behind them.
pub get-Reads {ℓ} :
    {A : Type ℓ} (r : ByteReader) (n : ℕ) (load : List ℕ → A) (xs ys : List ℕ) (a : A)
    → IsValid r
    → unread r ≡ xs ++ ys
    → n ≡ length xs
    → ((zs : List ℕ) → load (xs ++ zs) ≡ a)
    → Reads (get r n load) a (skip r n) ys
get-Reads r n load xs ys a v u hn hl =
    let h : n ≤ length (unread r) = rw (u, hn) (omega (arith, length-append xs ys)) in
    let behind = drop (r.end_ - r.start) (drop r.start r.bytes) in
    let seen : load (current_data r) ≡ a =
      ap load (current_data-unread r ∙ rw u (append_assoc xs ys behind)) ∙ hl (ys ++ behind) in
    let (eq, valid, left_over) = get_lem r n load v h in
    (eq ∙ ap (λ z. some (z, skip r n)) seen, valid, left_over ∙ rw (u, hn) (drop-append xs ys))

module _ (r : ByteReader) (v : IsValid r) (ys : List ℕ) where
  pub read_uint8-Reads : (a : ℕ) → unread r ≡ a ∷ ys → Reads (read_uint8 r) a (skip r 1) ys
  unfolding read_uint8 get left current_data load_uint8_be
  read_uint8-Reads a u = get-Reads r 1 load_uint8_be (a ∷ []) ys _ v u refl (λ zs. refl)

  pub read_uint16-Reads :
      (a b : ℕ) → unread r ≡ a ∷ b ∷ ys → Reads (read_uint16 r) (a * 256 + b) (skip r 2) ys
  unfolding read_uint16 get left current_data load_uint16_be
  read_uint16-Reads a b u = get-Reads r 2 load_uint16_be (a ∷ b ∷ []) ys _ v u refl (λ zs. refl)

  pub read_uint24-Reads :
      (a b c : ℕ)
      → unread r ≡ a ∷ b ∷ c ∷ ys
      → Reads (read_uint24 r) (a * 256 ^ 2 + b * 256 + c) (skip r 3) ys
  unfolding read_uint24 get left current_data load_uint24_be
  read_uint24-Reads a b c u =
      get-Reads r 3 load_uint24_be (a ∷ b ∷ c ∷ []) ys _ v u refl (λ zs. refl)

  pub read_uint32-Reads :
      (a b c d : ℕ)
      → unread r ≡ a ∷ b ∷ c ∷ d ∷ ys
      → Reads (read_uint32 r) (a * 256 ^ 3 + b * 256 ^ 2 + c * 256 + d) (skip r 4) ys
  unfolding read_uint32 get left current_data load_uint32_be
  read_uint32-Reads a b c d u =
      get-Reads r 4 load_uint32_be (a ∷ b ∷ c ∷ d ∷ []) ys _ v u refl (λ zs. refl)
