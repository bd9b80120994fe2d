-- ===== src/Rtp/Nalu/Reference.antt =====
-- `ParseNaluPositions` against a scan that looks at every offset.
use webrtc_stream_server.Prelude.{
  ℕ, zero, suc, ◌+◌, ◌-◌, ◌≤◌, ◌<◌, ◌≡◌, refl, ap, ap₂, subst, ◌∙◌, Bool, true, false, ◌&&◌, List,
  [], ◌∷◌, ◌++◌, arith, sub64, length, get_or, ltb, ◌==◌, if◌then◌else◌, append_assoc, inl, inr,
  Bool-cases,
}
use mathlib.Core.List.{reverse, reverse-cons}
use webrtc_stream_server.Rtp.Nalu.{
  NaluPosition, close_last, start_offset, push_start, scan, parse_nalu_positions,
}

-- A start code of three bytes, 0 0 1, at offset `i`.
unfoldable pub is_start : List ℕ → ℕ → Bool
is_start buffer i =
    (get_or buffer i 0 == 0) && ((get_or buffer (i + 1) 0 == 0) && (get_or buffer (i + 2) 0 == 1))

-- The offsets of the start codes among the `n` offsets from `i` on.
unfoldable pub start_codes : List ℕ → ℕ → ℕ → List ℕ
start_codes buffer i zero = []
start_codes buffer i (suc n) =
    let rest = start_codes buffer (i + 1) n in if is_start buffer i then i ∷ rest else rest

-- Where the unit before a start code ends: before the zero bytes of the code, three or, with a zero
-- byte in front of them, four.
unfoldable pub unit_end : List ℕ → ℕ → ℕ
unit_end buffer zero = zero
unit_end buffer (suc j) = if get_or buffer j 0 == 0 then j else suc j

-- A NAL unit reaches from behind its start code to the zero bytes of the next one, or to the end of the
-- buffer.
unfoldable pub spans_of : List ℕ → List ℕ → List NaluPosition
spans_of buffer [] = []
spans_of buffer (i ∷ []) = (i + 3, sub64 (length buffer) (i + 3)) ∷ []
spans_of buffer (i ∷ (j ∷ codes)) =
    (i + 3, sub64 (unit_end buffer j) (i + 3)) ∷ spans_of buffer (j ∷ codes)

module _ (buffer : List ℕ) where
  push_all : List ℕ → List NaluPosition → List NaluPosition
  push_all [] sequences = sequences
  push_all (i ∷ codes) sequences = push_all codes (push_start buffer i sequences)

  not_start_first : (i : ℕ) → 0 < get_or buffer i 0 → is_start buffer i ≡ false
  unfolding is_start
  not_start_first i h = ground arith

  not_start_second : (i : ℕ) → 0 < get_or buffer (i + 1) 0 → is_start buffer i ≡ false
  unfolding is_start
  not_start_second i h = ground arith

  pub is_start_facts :
      (i : ℕ)
      → is_start buffer i ≡ true
      → (get_or buffer i 0 ≡ 0) × (get_or buffer (i + 1) 0 ≡ 0) × (get_or buffer (i + 2) 0 ≡ 1)
  unfolding is_start
  is_start_facts i h = (ground arith, ground arith, ground arith)

  pub step_off :
      (i n : ℕ)
      → is_start buffer i ≡ false
      → start_codes buffer i (suc n) ≡ start_codes buffer (i + 1) n
  unfolding start_codes
  step_off i n e = rw e

  pub step_on :
      (i n : ℕ)
      → is_start buffer i ≡ true
      → start_codes buffer i (suc n) ≡ i ∷ start_codes buffer (i + 1) n
  unfolding start_codes
  step_on i n e = rw e

  codes_at : (i j n m : ℕ) → i ≡ j → n ≡ m → start_codes buffer i n ≡ start_codes buffer j m
  codes_at i j n m e f = ap₂ (start_codes buffer) e f

  -- No start code begins at a byte that is not 0, or at the byte before it.
  start_codes_skip_two :
      (i n : ℕ)
      → 0 < get_or buffer (i + 1) 0
      → start_codes buffer i n ≡ start_codes buffer (i + 2) (n - 2)
  unfolding start_codes
  start_codes_skip_two i zero h = refl
  start_codes_skip_two i (suc zero) h = step_off i 0 (not_start_second i h)
  start_codes_skip_two i (suc (suc n)) h =
      step_off i (suc n) (not_start_second i h)
      ∙ step_off (i + 1) n (not_start_first (i + 1) h)
      ∙ codes_at (i + 1 + 1) (i + 2) n (suc (suc n) - 2) (omega arith) (omega arith)

  pub skip_rest :
      (i n : ℕ)
      → 0 < get_or buffer (i + 2) 0
      → start_codes buffer (i + 1) n ≡ start_codes buffer (i + 3) (n - 2)
  skip_rest i n h =
      start_codes_skip_two (i + 1) n
        (subst (λ k. 0 < get_or buffer k 0) (let e : i + 2 ≡ i + 1 + 1 = omega arith in e) h)
      ∙ codes_at (i + 1 + 2) (i + 3) (n - 2) (n - 2) (omega arith) refl

  -- A new entry closes the one before it at the end of its unit.
  push_start-unit_end :
      (j : ℕ) (sequences : List NaluPosition)
      → push_start buffer j sequences ≡ (j + 3, 0) ∷ close_last (unit_end buffer j) sequences
  unfolding push_start start_offset unit_end
  push_start-unit_end zero sequences = refl
  push_start-unit_end (suc j) sequences =
      let positive : ltb 0 (suc j) ≡ true = ground arith in
      let before : suc j - 1 ≡ j = omega arith in rw (positive, before) refl

  scan-start_codes :
      (end_ fuel i n : ℕ) (sequences : List NaluPosition)
      → n ≡ end_ - i
      → n ≤ fuel
      → scan fuel buffer end_ i sequences ≡ push_all (start_codes buffer i n) sequences
  unfolding scan push_all is_start
  scan-start_codes end_ zero i zero sequences e h = unfold start_codes in refl
  scan-start_codes end_ zero i (suc n) sequences e h = absurd (omega arith)
  scan-start_codes end_ (suc fuel) i zero sequences e h =
      let past : ltb i end_ ≡ false = ground arith in rw past (unfold start_codes in refl)
  scan-start_codes end_ (suc fuel) i (suc n) sequences e h =
      let inside : ltb i end_ ≡ true = ground arith in
      rw inside (
        ground (
          arith,
          step_off i n,
          step_on i n,
          skip_rest i n,
          scan-start_codes end_ fuel (i + 3) (n - 2) sequences (omega arith) (omega arith),
          scan-start_codes end_ fuel (i + 3) (n - 2) (push_start buffer i sequences) (omega arith)
              (omega arith),
          scan-start_codes end_ fuel (i + 1) n sequences (omega arith) (omega arith),
        ))

  close-push_all :
      (i : ℕ) (codes : List ℕ) (done : List NaluPosition)
      → reverse (close_last (length buffer) (push_all codes ((i + 3, 0) ∷ done)))
        ≡ reverse done ++ spans_of buffer (i ∷ codes)
  unfolding push_all push_start close_last spans_of
  close-push_all i [] done = reverse-cons (i + 3, sub64 (length buffer) (i + 3)) done
  close-push_all i (j ∷ codes) done =
      let span : NaluPosition = (i + 3, sub64 (unit_end buffer j) (i + 3)) in
      ap (λ l. reverse (close_last (length buffer) (push_all codes l)))
        (push_start-unit_end j ((i + 3, 0) ∷ done))
      ∙ close-push_all j codes (span ∷ done)
      ∙ ap (λ l. l ++ spans_of buffer (j ∷ codes)) (reverse-cons span done)
      ∙ append_assoc (reverse done) (span ∷ []) (spans_of buffer (j ∷ codes))

  close_all :
      (codes : List ℕ)
      → reverse (close_last (length buffer) (push_all codes [])) ≡ spans_of buffer codes
  unfolding push_all push_start close_last spans_of
  close_all [] = refl
  close_all (i ∷ codes) = close-push_all i codes []

pub parse_nalu_positions-eq :
    (buffer : List ℕ)
    → parse_nalu_positions buffer ≡ spans_of buffer (start_codes buffer 0 (length buffer - 3))
unfolding parse_nalu_positions
parse_nalu_positions-eq buffer = elim (Bool-cases (ltb (length buffer) 3)) [
  | inl e ↦
      let none : length buffer - 3 ≡ 0 = ground arith in
      rw (e, none) (unfold start_codes spans_of in refl)
  | inr e ↦
      rw
        (
          e,
          scan-start_codes buffer (length buffer - 3) (length buffer) 0 (length buffer - 3) []
              (omega arith) (omega arith),
        )
        (close_all buffer (start_codes buffer 0 (length buffer - 3)))
]
