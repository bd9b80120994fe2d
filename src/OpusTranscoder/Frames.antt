-- ===== src/OpusTranscoder/Frames.antt =====
-- The loop of `Transcode` ends, and what it sends are the encoded frames of the samples in the FIFO.
use webrtc_stream_server.Prelude.{
  ℕ, zero, suc, ◌+◌, ◌/◌, ◌*◌, ◌≡◌, ◌<◌, ◌≤◌, refl, ap, subst, true, false, some, List, [], ◌∷◌,
  ◌++◌, if◌then◌else◌, leb, ltb, length, take, drop, ◌==◌, u64, arith, tests, inl, inr, Bool-cases,
  length-take, length-drop,
}
use webrtc_stream_server.OpusTranscoder.{
  AvPacket, Codecs, OpusTranscoder, Outcome, frame, returned, frame_size, make_packet, take_encoded,
  take_samples, encode_frame, go_on, encode_loop, take_written, take_converted, convert_frame,
  take_received, take_sent, transcode,
}
use webrtc_stream_server.OpusTranscoder.Fifo.{IsFifo, Encodes}

-- From the encoder's state, the stamp of the next frame and the samples at hand: the packets, and the
-- same three after them, when fewer samples than a frame are left.
pub data FramesOf {X Q : Type 0} (lib : Codecs X Q)
    : X → ℕ → List ℕ → List AvPacket → X → ℕ → List ℕ → Type 0 where
  short :
      (x : X) (pts : ℕ) (samples : List ℕ)
      → length samples < frame_size
      → FramesOf lib x pts samples [] x pts samples
  more :
      (x x' x'' : X) (pts pts'' : ℕ) (samples bytes rest : List ℕ) (later : List AvPacket)
      → frame_size ≤ length samples
      → lib.encode x (take frame_size samples) ≡ some (x', bytes)
      → FramesOf lib x' (u64 (pts + 20)) (drop frame_size samples) later x'' pts'' rest
      → FramesOf lib x pts samples
          (record { stream_index = 0; data_bytes = bytes; pts = pts; is_key = false } ∷ later)
          x''
          pts''
          rest

module _ {X Q : Type 0} (lib : Codecs X Q) (contents : Q → List ℕ)
    (fifo : IsFifo lib contents) where
  abbrev next_of : OpusTranscoder X Q → X × List ℕ → OpusTranscoder X Q
  next_of t r = record t {
    audio_fifo = (lib.fifo_read t.audio_fifo frame_size).0;
    codecs = r.0;
    audio_pts_ms = u64 (t.audio_pts_ms + 20);
  }

  abbrev packet_of : OpusTranscoder X Q → X × List ℕ → AvPacket
  packet_of t r = record {
    stream_index = 0;
    data_bytes = r.1;
    pts = t.audio_pts_ms;
    is_key = false;
  }

  -- What one round does, when the encoder answers `r`.
  encode_frame_lem :
      (t : OpusTranscoder X Q) (r : X × List ℕ)
      → frame_size ≤ length (contents t.audio_fifo)
      → lib.encode t.codecs (take frame_size (contents t.audio_fifo)) ≡ some r
      → lib.new_packet (length r.1) ≡ true
      → t.has_callback ≡ true
      → encode_frame lib t ≡ (next_of t r, some (packet_of t r ∷ []))
  unfolding encode_frame take_samples take_encoded make_packet
  encode_frame_lem t r enough enc alloc cb =
      let full : (length (take frame_size (contents t.audio_fifo)) == frame_size) ≡ true =
        ground (arith, length-take frame_size (contents t.audio_fifo)) in
      rw (fifo.taken t.audio_fifo frame_size enough, full, enc, alloc, cb) refl

  -- What the loop leaves from `t` on: it has returned true, and its packets hold the frames.
  unfoldable pub Finished :
      OpusTranscoder X Q → OpusTranscoder X Q × (List AvPacket × Outcome) → Type 0
  Finished t (t', (sent, outcome)) =
      (outcome ≡ returned true)
      × FramesOf lib t.codecs t.audio_pts_ms (contents t.audio_fifo) sent t'.codecs t'.audio_pts_ms
          (contents t'.audio_fifo)

  Finished-go_on :
      (t : OpusTranscoder X Q) (r : X × List ℕ)
      (rest : OpusTranscoder X Q × (List AvPacket × Outcome))
      → frame_size ≤ length (contents t.audio_fifo)
      → lib.encode t.codecs (take frame_size (contents t.audio_fifo)) ≡ some r
      → Finished (next_of t r) rest
      → Finished t (go_on lib (next_of t r, some (packet_of t r ∷ [])) rest)
  unfolding Finished go_on
  Finished-go_on t r (t', (sent, outcome)) enough enc (ok, frames) = (
    ok,
    more t.codecs r.0 t'.codecs t.audio_pts_ms t'.audio_pts_ms (contents t.audio_fifo) r.1
        (contents t'.audio_fifo) sent enough enc
        (subst
          (λ l.
            FramesOf lib r.0 (u64 (t.audio_pts_ms + 20)) l sent t'.codecs t'.audio_pts_ms
              (contents t'.audio_fifo))
          (fifo.kept t.audio_fifo frame_size enough) frames),
  )

  encode_loop-FramesOf :
      Encodes lib
      → (fuel : ℕ) (t : OpusTranscoder X Q) → t.has_callback ≡ true
      → length (contents t.audio_fifo) < frame_size * fuel
      → Finished t (encode_loop lib fuel t)
  unfolding encode_loop Finished
  encode_loop-FramesOf works zero t cb h = absurd (omega arith)
  encode_loop-FramesOf works (suc fuel) t cb h =
      let size = fifo.sized t.audio_fifo in
      elim (Bool-cases (leb frame_size (lib.fifo_size t.audio_fifo))) [
        | inl test ↦
            let enough : frame_size ≤ length (contents t.audio_fifo) = omega (tests, size) in
            let (r, enc) =
              works.encoded t.codecs (take frame_size (contents t.audio_fifo))
                (omega (arith, length-take frame_size (contents t.audio_fifo))) in
            let left : length (contents (next_of t r).audio_fifo) < frame_size * fuel = omega (
              arith,
              ap length (fifo.kept t.audio_fifo frame_size enough),
              length-drop frame_size (contents t.audio_fifo),
            ) in
            rw (test, encode_frame_lem t r enough enc (works.allocated (length r.1)) cb)
              (Finished-go_on t r (encode_loop lib fuel (next_of t r)) enough enc
                (encode_loop-FramesOf works fuel (next_of t r) cb left))
        | inr few ↦
            let lt : length (contents t.audio_fifo) < frame_size = ground (arith, size) in
            rw few (refl, short t.codecs t.audio_pts_ms (contents t.audio_fifo) lt)
      ]

  convert_frame-FramesOf :
      Encodes lib
      → (t : OpusTranscoder X Q) (x : X) (samples : List ℕ) → t.has_callback ≡ true
      → lib.convert t.codecs t.samples_per_channel ≡ some (x, samples)
      → Finished
          (record t { codecs = x; audio_fifo = (lib.fifo_write t.audio_fifo samples).0 })
          (convert_frame lib t)
  unfolding convert_frame take_converted take_written
  convert_frame-FramesOf works t x samples cb conv =
      let q = (lib.fifo_write t.audio_fifo samples).0 in
      let all : ltb (lib.fifo_write t.audio_fifo samples).1 (length samples) ≡ false =
        ground (arith, fifo.written t.audio_fifo samples) in
      let fuel : length (contents q) < frame_size * suc (lib.fifo_size q / frame_size) =
        omega (arith, fifo.sized q) in
      rw (conv, all)
        (encode_loop-FramesOf works (suc (lib.fifo_size q / frame_size))
          (record t { codecs = x; audio_fifo = q }) cb fuel)

  -- When the decoder gives a frame, the resampler turns it into `samples`, and neither the encoder nor
  -- an allocation fails, `Transcode` ends and returns true; its packets hold the codes of the successive
  -- 960 samples of what was in the FIFO and then `samples`, each with a stamp 20 ms after the one
  -- before, and what stays in the FIFO is the rest, less than 960 samples.
  pub transcode-FramesOf :
      Encodes lib
      → ((n : ℕ) → lib.samples_alloc n ≡ true)
      → (t : OpusTranscoder X Q) (pkt : AvPacket) (x x' x'' : X) (nb_samples : ℕ) (samples : List ℕ)
      → t.has_callback ≡ true
      → lib.send_packet t.codecs pkt ≡ some x
      → lib.receive_frame x ≡ (x', frame nb_samples)
      → lib.convert x' (
          if ltb t.samples_per_channel (lib.rescale x' nb_samples)
          then lib.rescale x' nb_samples
          else t.samples_per_channel)
        ≡ some (x'', samples)
      → ((transcode lib t (some pkt)).1.1 ≡ returned true)
        × FramesOf lib x'' t.audio_pts_ms
            (contents t.audio_fifo ++ samples)
            (transcode lib t (some pkt)).1.0
            (transcode lib t (some pkt)).0.codecs
            (transcode lib t (some pkt)).0.audio_pts_ms
            (contents (transcode lib t (some pkt)).0.audio_fifo)
  unfolding transcode take_sent take_received Finished
  transcode-FramesOf works alloc t pkt x x' x'' nb_samples samples cb sent got conv =
      elim (Bool-cases (ltb t.samples_per_channel (lib.rescale x' nb_samples))) [
        | inl grows ↦
            let t' : OpusTranscoder X Q = record t {
              codecs = x';
              samples_per_channel = lib.rescale x' nb_samples;
            } in
            rw
              (
                sent,
                got,
                grows,
                alloc (lib.rescale x' nb_samples),
                ← fifo.appended t.audio_fifo samples,
              )
              (convert_frame-FramesOf works t' x'' samples cb (rw grows at conv))
        | inr fits ↦
            let t' : OpusTranscoder X Q = record t { codecs = x' } in
            rw (sent, got, fits, ← fifo.appended t.audio_fifo samples)
              (convert_frame-FramesOf works t' x'' samples cb (rw fits at conv))
      ]
