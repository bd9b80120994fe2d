-- ===== src/OpusTranscoder.antt =====
-- opus_transcoder.h and opus_transcoder.cpp: decoded and resampled audio goes through a FIFO, and leaves
-- it in frames of 20 ms, which are encoded and stamped. The decoder, the resampler, the encoder and the
-- FIFO belong to the media libraries: they are fields of `Codecs`, `X` is the state of the first three
-- and `Q` that of the FIFO. `Open` only calls the libraries.
pub mod Fifo
pub mod Frames
use webrtc_stream_server.Prelude.{
  ℕ, zero, suc, ◌+◌, ◌/◌, Bool, true, false, Option, none, some, List, [], ◌∷◌, ◌++◌, if◌then◌else◌,
  ltb, leb, length, ◌==◌, u64,
}

-- What is read and written of an `AVPacket`; `pts` is the bit pattern of an `int64_t`.
pub record AvPacket : Type 0 where
  pub stream_index : ℕ
  pub data_bytes : List ℕ
  pub pts : ℕ
  pub is_key : Bool

pub data Received : Type 0 where
  frame : ℕ → Received
  again : Received
  failed : Received

-- The calls of the libraries; `none` and a false answer are error codes. An element of `List ℕ` is one
-- sample of both channels.
pub record Codecs (X Q : Type 0) : Type 0 where
  pub send_packet : X → AvPacket → Option X
  pub receive_frame : X → X × Received
  pub rescale : X → ℕ → ℕ
  pub samples_alloc : ℕ → Bool
  pub convert : X → ℕ → Option (X × List ℕ)
  pub encode : X → List ℕ → Option (X × List ℕ)
  pub new_packet : ℕ → Bool
  pub fifo_size : Q → ℕ
  pub fifo_write : Q → List ℕ → Q × ℕ
  pub fifo_read : Q → ℕ → Q × List ℕ

pub record OpusTranscoder (X Q : Type 0) : Type 0 where
  pub codecs : X
  pub audio_fifo : Q
  pub samples_per_channel : ℕ
  pub audio_pts_ms : ℕ
  pub has_callback : Bool

-- What `Transcode` returned; `running` is a loop that goes on.
pub data Outcome : Type 0 where
  returned : Bool → Outcome
  running : Outcome

abbrev pub frame_size : ℕ
frame_size = 960

unfoldable pub create : {X Q : Type 0} → X → Q → OpusTranscoder X Q
create x q = record {
  codecs = x;
  audio_fifo = q;
  samples_per_channel = 0;
  audio_pts_ms = 0;
  has_callback = false;
}

module _ {X Q : Type 0} (lib : Codecs X Q) where
  unfoldable pub make_packet :
      OpusTranscoder X Q → X → List ℕ → OpusTranscoder X Q × Option (List AvPacket)
  make_packet t x bytes =
      let packet : AvPacket = record {
        stream_index = 0;
        data_bytes = bytes;
        pts = t.audio_pts_ms;
        is_key = false;
      } in
      if lib.new_packet (length bytes)
      then (
        record t { codecs = x; audio_pts_ms = u64 (t.audio_pts_ms + 20) },
        some (if t.has_callback then packet ∷ [] else []),
      )
      else (record t { codecs = x }, none)

  unfoldable pub take_encoded :
      OpusTranscoder X Q → Option (X × List ℕ) → OpusTranscoder X Q × Option (List AvPacket)
  take_encoded t none = (t, none)
  take_encoded t (some (x, bytes)) = make_packet t x bytes

  unfoldable pub take_samples :
      OpusTranscoder X Q → Q × List ℕ → OpusTranscoder X Q × Option (List AvPacket)
  take_samples t (q, samples) =
      let t' = record t { audio_fifo = q } in
      if length samples == frame_size
      then take_encoded t' (lib.encode t.codecs samples)
      else (t', none)

  -- The body of the loop; `none` stands for `return false`.
  unfoldable pub encode_frame : OpusTranscoder X Q → OpusTranscoder X Q × Option (List AvPacket)
  encode_frame t = take_samples t (lib.fifo_read t.audio_fifo frame_size)

  unfoldable pub go_on :
      OpusTranscoder X Q × Option (List AvPacket)
      → OpusTranscoder X Q × (List AvPacket × Outcome)
      → OpusTranscoder X Q × (List AvPacket × Outcome)
  go_on (t, none) rest = (t, ([], returned false))
  go_on (t, some sent) (t', (later, outcome)) = (t', (sent ++ later, outcome))

  unfoldable pub encode_loop :
      ℕ → OpusTranscoder X Q → OpusTranscoder X Q × (List AvPacket × Outcome)
  encode_loop zero t = (t, ([], running))
  encode_loop (suc fuel) t =
      let step = encode_frame t in
      let rest = encode_loop fuel step.0 in
      if leb frame_size (lib.fifo_size t.audio_fifo)
      then go_on step rest
      else (t, ([], returned true))

  unfoldable pub take_written :
      OpusTranscoder X Q → ℕ → Q × ℕ → OpusTranscoder X Q × (List AvPacket × Outcome)
  take_written t count (q, written) =
      let t' = record t { audio_fifo = q } in
      if ltb written count
      then (t', ([], returned false))
      else encode_loop (suc (lib.fifo_size q / frame_size)) t'

  unfoldable pub take_converted :
      OpusTranscoder X Q → Option (X × List ℕ) → OpusTranscoder X Q × (List AvPacket × Outcome)
  take_converted t none = (t, ([], returned false))
  take_converted t (some (x, samples)) =
      take_written (record t { codecs = x }) (length samples) (lib.fifo_write t.audio_fifo samples)

  unfoldable pub convert_frame : OpusTranscoder X Q → OpusTranscoder X Q × (List AvPacket × Outcome)
  convert_frame t = take_converted t (lib.convert t.codecs t.samples_per_channel)

  unfoldable pub take_received :
      OpusTranscoder X Q → X × Received → OpusTranscoder X Q × (List AvPacket × Outcome)
  take_received t (x, again) = (record t { codecs = x }, ([], returned true))
  take_received t (x, failed) = (record t { codecs = x }, ([], returned false))
  take_received t (x, frame nb_samples) =
      let t' = record t { codecs = x } in
      let estimated = lib.rescale x nb_samples in
      if ltb t.samples_per_channel estimated
      then if lib.samples_alloc estimated
        then convert_frame (record t' { samples_per_channel = estimated })
        else (t', ([], returned false))
      else convert_frame t'

  unfoldable pub take_sent :
      OpusTranscoder X Q → Option X → OpusTranscoder X Q × (List AvPacket × Outcome)
  take_sent t none = (t, ([], returned false))
  take_sent t (some x) = take_received t (lib.receive_frame x)

  unfoldable pub transcode :
      OpusTranscoder X Q → Option AvPacket → OpusTranscoder X Q × (List AvPacket × Outcome)
  transcode t none = (t, ([], returned false))
  transcode t (some pkt) = take_sent t (lib.send_packet t.codecs pkt)
