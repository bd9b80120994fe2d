-- ===== src/ByteBuffer/ByteWriter/Sequence.antt =====
-- Chains of writes: what they leave when everything fits, and that they fail otherwise.
use webrtc_stream_server.Prelude.{
  ℕ, ◌+◌, ◌≤◌, ◌<◌, ◌≡◌, refl, sym, ap, ◌∙◌, List, [], ◌∷◌, ◌++◌, Option, none, some, ◌>>=◌, arith,
  length, length-append, append-nil, append_assoc, inl, inr, Bool-cases, leb,
}
use webrtc_stream_server.ByteBuffer.ByteWriter.{ByteWriter}
use webrtc_stream_server.ByteBuffer.ByteWriter.Written.{
  IsValid, written, extend, put, put_lem, put-none,
}

-- `if (!Write(…)) return false;` for each value in turn.
unfoldable pub put_all : ByteWriter → List (List ℕ) → Option ByteWriter
put_all w [] = some w
put_all w (val ∷ vals) = put w val >>= λ w. put_all w vals

unfoldable pub flat : List (List ℕ) → List ℕ
flat [] = []
flat (val ∷ vals) = val ++ flat vals

-- A chain that succeeds has appended `val` in a buffer of the same size.
pub record Writes (w : ByteWriter) (o : Option ByteWriter) (val : List ℕ) : Type 0 where
  pub after : ByteWriter
  pub succeeds : o ≡ some after
  pub valid : IsValid after
  pub appended : written after ≡ written w ++ val
  pub used_up : after.len ≡ w.len + length val
  pub same_size : after.size ≡ w.size
  pub same_buffer : length after.bytes ≡ length w.bytes

pub put_all-Writes :
    (w : ByteWriter) (vals : List (List ℕ))
    → IsValid w
    → w.len + length (flat vals) ≤ w.size
    → Writes w (put_all w vals) (flat vals)
unfolding put_all flat
put_all-Writes w [] v h = record {
  after = w;
  succeeds = refl;
  valid = v;
  appended = sym (append-nil (written w));
  used_up = omega arith;
  same_size = refl;
  same_buffer = refl;
}
put_all-Writes w (val ∷ vals) v h =
    let l = length-append val (flat vals) in
    let (e, v1, a1, b1) = put_lem w val v (omega arith) in
    let k = put_all-Writes (extend w val) vals v1 (omega arith) in
    record {
      after = k.after;
      succeeds = rw e k.succeeds;
      valid = k.valid;
      appended =
          k.appended ∙ ap (λ l. l ++ flat vals) a1 ∙ append_assoc (written w) val (flat vals);
      used_up = k.used_up ∙ omega arith;
      same_size = k.same_size;
      same_buffer = k.same_buffer ∙ b1;
    }

pub put_all-none :
    (w : ByteWriter) (vals : List (List ℕ))
    → IsValid w
    → w.size < w.len + length (flat vals)
    → put_all w vals ≡ none
unfolding put_all flat
put_all-none w [] v h = let k = v.within in absurd (omega arith)
put_all-none w (val ∷ vals) v h = elim (Bool-cases (leb (w.len + length val) w.size)) [
  | inl e ↦
      let l = length-append val (flat vals) in
      let (e1, v1, _, _) = put_lem w val v (ground arith) in
      rw e1 (put_all-none (extend w val) vals v1 (omega arith))
  | inr e ↦ rw (put-none w val v (ground arith)) refl
]
