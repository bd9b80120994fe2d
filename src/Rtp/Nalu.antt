-- ===== src/Rtp/Nalu.antt =====
-- `ParseNaluPositions` of rtp_packet.cpp: the scan of an access unit for start codes. A position is
-- the offset of a NAL unit in the buffer and its length. The head of the list is the back of the
-- vector, which is the entry that the scan still changes.
pub mod Reference
pub mod Spans
use webrtc_stream_server.Prelude.{
  ℕ, zero, suc, ◌+◌, ◌-◌, Bool, ◌&&◌, List, [], ◌∷◌, sub64, length, get_or, ltb, ◌==◌,
  if◌then◌else◌,
}
use mathlib.Core.List.{reverse}

abbrev pub NaluPosition : Type 0
NaluPosition = ℕ × ℕ

-- `it->second = stop - (it->first - buffer)` for the last entry, if there is one.
unfoldable pub close_last : ℕ → List NaluPosition → List NaluPosition
close_last stop [] = []
close_last stop ((first, len) ∷ sequences) = (first, sub64 stop first) ∷ sequences

-- Where the previous NAL unit stops: before a start code of three bytes, or of four.
unfoldable pub start_offset : List ℕ → ℕ → ℕ
start_offset buffer i = if ltb 0 i && (get_or buffer (i - 1) 0 == 0) then i - 1 else i

unfoldable pub push_start : List ℕ → ℕ → List NaluPosition → List NaluPosition
unfolding close_last start_offset
push_start buffer i sequences = (i + 3, 0) ∷ close_last (start_offset buffer i) sequences

-- `for (i = 0; i < end;)`. Each round raises `i`, so `end` rounds are enough.
unfoldable pub scan : ℕ → List ℕ → ℕ → ℕ → List NaluPosition → List NaluPosition
unfolding push_start
scan zero buffer end_ i sequences = sequences
scan (suc fuel) buffer end_ i sequences =
    let skip3 = scan fuel buffer end_ (i + 3) sequences in
    let found = scan fuel buffer end_ (i + 3) (push_start buffer i sequences) in
    let next = scan fuel buffer end_ (i + 1) sequences in
    if ltb i end_
    then (if ltb 1 (get_or buffer (i + 2) 0)
        then skip3
        else if get_or buffer (i + 2) 0 == 1
        then (if (get_or buffer (i + 1) 0 == 0) && (get_or buffer i 0 == 0) then found else skip3)
        else next)
    else sequences

unfoldable pub parse_nalu_positions : List ℕ → List NaluPosition
unfolding scan close_last
parse_nalu_positions buffer =
    if ltb (length buffer) 3
    then []
    else reverse (close_last (length buffer) (scan (length buffer) buffer (length buffer - 3) 0 []))
