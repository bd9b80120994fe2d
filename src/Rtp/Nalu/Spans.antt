-- ===== src/Rtp/Nalu/Spans.antt =====
-- Where the NAL units lie that `ParseNaluPositions` finds.
use webrtc_stream_server.Prelude.{
  ℕ, zero, suc, ◌+◌, ◌-◌, ◌^◌, ◌≤◌, ◌<◌, ◌≡◌, ap, subst, true, List, [], ◌∷◌, arith, sub64, length,
  get_or, inl, inr, Bool-cases,
}
use webrtc_stream_server.Rtp.Nalu.{NaluPosition, parse_nalu_positions}
use webrtc_stream_server.Rtp.Nalu.Reference.{
  unit_end, is_start, start_codes, spans_of, is_start_facts, step_off, step_on, skip_rest,
  parse_nalu_positions-eq,
}

-- Start codes from `low` on, none over another, with `limit` above them.
abbrev Codes : List ℕ → ℕ → ℕ → List ℕ → Type 0
Codes buffer limit low [] = Unit {0}
Codes buffer limit low (i ∷ codes) =
    (low ≤ i) × (i < limit) × (is_start buffer i ≡ true) × Codes buffer limit (i + 3) codes

-- Units in order, each behind a start code at `low` or later, and inside the `size` bytes.
abbrev pub Spans : List ℕ → ℕ → List NaluPosition → Type 0
Spans buffer low [] = Unit {0}
Spans buffer low ((first, len) ∷ positions) =
    (low + 3 ≤ first)
    × (is_start buffer (first - 3) ≡ true)
    × (first + len ≤ length buffer)
    × Spans buffer (first + len) positions

Codes-weaken :
    (buffer : List ℕ) (limit low low' : ℕ) (codes : List ℕ)
    → low' ≤ low
    → Codes buffer limit low codes
    → Codes buffer limit low' codes
Codes-weaken buffer limit low low' [] h c = tt
Codes-weaken buffer limit low low' (i ∷ codes) h c = (omega arith, c.1, c.2, c.3)

start_codes-Codes :
    (buffer : List ℕ) (limit i m n : ℕ)
    → n ≤ m
    → n ≤ limit - i
    → Codes buffer limit i (start_codes buffer i n)
start_codes-Codes buffer limit i zero zero h k = unfold start_codes in tt
start_codes-Codes buffer limit i zero (suc n) h k = absurd (omega arith)
start_codes-Codes buffer limit i (suc m) zero h k = unfold start_codes in tt
start_codes-Codes buffer limit i (suc m) (suc n) h k = elim (Bool-cases (is_start buffer i)) [
  | inl on ↦
      let one = (is_start_facts buffer i on).2 in
      rw (step_on buffer i n on, skip_rest buffer i n (omega arith))
        (
          omega arith,
          omega arith,
          on,
          start_codes-Codes buffer limit (i + 3) m (n - 2) (omega arith) (omega arith),
        )
  | inr off ↦ rw (step_off buffer i n off) (
      Codes-weaken buffer limit (i + 1) i _ (omega arith)
        (start_codes-Codes buffer limit (i + 1) m n (omega arith) (omega arith)))
]

-- The zero byte of a start code of four bytes is not the last byte of the code before.
unit_end_bounds :
    (buffer : List ℕ) (i j : ℕ)
    → is_start buffer i ≡ true
    → i + 3 ≤ j
    → (i + 3 ≤ unit_end buffer j) × (unit_end buffer j ≤ j)
unfolding unit_end
unit_end_bounds buffer i j on h =
    let one = (is_start_facts buffer i on).2 in
    let same : j ≡ i + 3 → get_or buffer (j - 1) 0 ≡ get_or buffer (i + 2) 0 =
      λ e. ap (λ k. get_or buffer k 0) (let f : j - 1 ≡ i + 2 = omega arith in f) in
    ground (arith, same)

spans_of-Spans :
    (buffer : List ℕ) (low : ℕ) (codes : List ℕ)
    → length buffer < 2 ^ 64
    → Codes buffer (length buffer - 3) low codes
    → Spans buffer low (spans_of buffer codes)
unfolding spans_of
spans_of-Spans buffer low [] small c = tt
spans_of-Spans buffer low (i ∷ []) small c = (
  omega arith,
  subst (λ k. is_start buffer k ≡ true) (let e : i ≡ i + 3 - 3 = omega arith in e) c.2,
  omega arith,
  tt,
)
spans_of-Spans buffer low (i ∷ (j ∷ codes)) small c =
    let (above, below) = unit_end_bounds buffer i j c.2 c.3.0 in
    let stop : i + 3 + sub64 (unit_end buffer j) (i + 3) ≡ unit_end buffer j = omega arith in
    (
      omega arith,
      subst (λ k. is_start buffer k ≡ true) (let e : i ≡ i + 3 - 3 = omega arith in e) c.2,
      omega arith,
      spans_of-Spans buffer (i + 3 + sub64 (unit_end buffer j) (i + 3)) (j ∷ codes) small
          (omega arith, c.3.1, c.3.2, c.3.3),
    )

-- In a buffer of less than 2^64 bytes the NAL units that the scan finds lie inside the buffer, each
-- directly behind a start code, in order, with the start code of each behind the unit before it.
pub parse_nalu_positions-Spans :
    (buffer : List ℕ) → length buffer < 2 ^ 64 → Spans buffer 0 (parse_nalu_positions buffer)
parse_nalu_positions-Spans buffer small = rw (parse_nalu_positions-eq buffer) (
    spans_of-Spans buffer 0 (start_codes buffer 0 (length buffer - 3)) small (
      start_codes-Codes buffer (length buffer - 3) 0 (length buffer - 3) (length buffer - 3)
        (omega arith) (omega arith)))
