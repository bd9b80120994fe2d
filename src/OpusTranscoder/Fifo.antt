-- ===== src/OpusTranscoder/Fifo.antt =====
-- What the transcoder relies on of the FIFO and of the encoder of the libraries.
use webrtc_stream_server.Prelude.{ℕ, ◌≡◌, ◌≤◌, true, some, List, ◌++◌, length, take, drop}
use webrtc_stream_server.OpusTranscoder.{Codecs, frame_size}

-- `contents` is what a FIFO holds, oldest first: a write that succeeds appends, a read of no more than is
-- there takes from the front.
pub record IsFifo {X Q : Type 0} (lib : Codecs X Q) (contents : Q → List ℕ) : Type 0 where
  pub sized : (q : Q) → lib.fifo_size q ≡ length (contents q)
  pub written : (q : Q) (samples : List ℕ) → (lib.fifo_write q samples).1 ≡ length samples
  pub appended :
      (q : Q) (samples : List ℕ) → contents (lib.fifo_write q samples).0 ≡ contents q ++ samples
  pub taken :
      (q : Q) (n : ℕ) → n ≤ length (contents q) → (lib.fifo_read q n).1 ≡ take n (contents q)
  pub kept :
      (q : Q) (n : ℕ)
      → n ≤ length (contents q)
      → contents (lib.fifo_read q n).0 ≡ drop n (contents q)

-- No frame is refused, and memory does not run out.
pub record Encodes {X Q : Type 0} (lib : Codecs X Q) : Type 0 where
  pub encoded :
      (x : X) (samples : List ℕ)
      → length samples ≡ frame_size
      → (r : X × List ℕ) × (lib.encode x samples ≡ some r)
  pub allocated : (n : ℕ) → lib.new_packet n ≡ true
