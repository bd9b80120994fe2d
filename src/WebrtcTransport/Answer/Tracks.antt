-- ===== src/WebrtcTransport/Answer/Tracks.antt =====
-- A media stream set up by `CreateAnswer` always finds the tracks of the packets that it packs.
use Prim.Native.String.{String}
use webrtc_stream_server.Prelude.{
  ℕ, suc, ◌≡◌, refl, sym, Bool, true, false, Option, some, List, [], ◌∷◌, ◌++◌, if◌then◌else◌,
  ◌>>=◌, ◌==◌, ◌⊎◌, All, inl, inr, Bool-cases, subst, take,
}
use webrtc_stream_server.MediaPacket.{MediaType, video, audio, MediaPacket}
use webrtc_stream_server.Rtp.Header.{RtpPacket}
use webrtc_stream_server.Rtp.Packetizer.{RtpPacketizer, pack_h264, pack_opus}
use webrtc_stream_server.Rtp.Packetizer.Ssrc.{pack_h264-OfSsrc, pack_opus-OfSsrc}
use webrtc_stream_server.StreamTrack.{StreamTrack, receive_packet}
use webrtc_stream_server.MediaStream
use webrtc_stream_server.MediaStream.{
  MediaStream, Output, rtp_packet_send, find, insert, packetizer, add_kind, add_stream_track,
  on_rtp_packet_generated, on_rtp_packets_generated, receive_h264_packet, receive_opus_packet,
}
use webrtc_stream_server.WebrtcTransport.Answer.{
  video_h264_ssrc, audio_opus_ssrc, video_rtp_params, audio_rtp_params, Answer, Local,
  create_answer,
}

-- The tracks hold one under the SSRC.
unfoldable pub has_track : List (ℕ × StreamTrack) → ℕ → Bool
has_track [] ssrc = false
has_track ((key, track) ∷ tracks) ssrc = if key == ssrc then true else has_track tracks ssrc

find-has_track :
    (tracks : List (ℕ × StreamTrack)) (ssrc : ℕ)
    → has_track tracks ssrc ≡ true
    → (track : StreamTrack) × (find tracks ssrc ≡ some track)
unfolding has_track find
find-has_track [] ssrc h = absurd (let f : false ≡ true = h in cc)
find-has_track ((key, track) ∷ tracks) ssrc h = elim (Bool-cases (key == ssrc)) [
  | inl same ↦ (track, rw same refl)
  | inr other ↦ let (t, e) = find-has_track tracks ssrc (rw other at h) in (t, rw other e)
]

has_track-insert :
    (tracks : List (ℕ × StreamTrack)) (key ssrc : ℕ) (track : StreamTrack)
    → has_track tracks ssrc ≡ true
    → has_track (insert tracks key track) ssrc ≡ true
unfolding has_track insert
has_track-insert [] key ssrc track h = absurd (let f : false ≡ true = h in cc)
has_track-insert ((k, old) ∷ tracks) key ssrc track h = elim (Bool-cases (k == key)) [
  | inl same ↦ rw same h
  | inr other ↦ elim (Bool-cases (k == ssrc)) [
    | inl this ↦ rw (other, this) refl
    | inr later ↦ rw (other, later) (has_track-insert tracks key ssrc track (rw later at h))
  ]
]

-- What the media stream of an answer keeps: both packetizers with their SSRCs, and both tracks.
pub record IsReady (m : MediaStream) : Type 0 where
  pub h264 : RtpPacketizer
  pub has_h264 : m.h264_packetizer ≡ some h264
  pub h264_ssrc : h264.ssrc ≡ video_h264_ssrc
  pub opus : RtpPacketizer
  pub has_opus : m.opus_packetizer ≡ some opus
  pub opus_ssrc : opus.ssrc ≡ audio_opus_ssrc
  pub video_track : has_track m.stream_tracks video_h264_ssrc ≡ true
  pub audio_track : has_track m.stream_tracks audio_opus_ssrc ≡ true

-- A result that is there, and ready.
abbrev pub Answers : Option (MediaStream × List Output) → Type 0
Answers x = (r : MediaStream × List Output) × (x ≡ some r) × IsReady r.0

IsReady-insert :
    (m : MediaStream) (key : ℕ) (track : StreamTrack)
    → IsReady m
    → IsReady (record m { stream_tracks = insert m.stream_tracks key track })
IsReady-insert m key track ready = record {
  h264 = ready.h264;
  has_h264 = ready.has_h264;
  h264_ssrc = ready.h264_ssrc;
  opus = ready.opus;
  has_opus = ready.has_opus;
  opus_ssrc = ready.opus_ssrc;
  video_track = has_track-insert m.stream_tracks key video_h264_ssrc track ready.video_track;
  audio_track = has_track-insert m.stream_tracks key audio_opus_ssrc track ready.audio_track;
}

-- One of the two SSRCs has its track.
track_of :
    (m : MediaStream) (ssrc : ℕ)
    → IsReady m
    → (ssrc ≡ video_h264_ssrc) ⊎ (ssrc ≡ audio_opus_ssrc)
    → (track : StreamTrack) × (find m.stream_tracks ssrc ≡ some track)
track_of m ssrc ready (inl e) =
    find-has_track m.stream_tracks ssrc
      (subst (λ x. has_track m.stream_tracks x ≡ true) (sym e) ready.video_track)
track_of m ssrc ready (inr e) =
    find-has_track m.stream_tracks ssrc
      (subst (λ x. has_track m.stream_tracks x ≡ true) (sym e) ready.audio_track)

Answers-on_rtp_packets_generated :
    (m : MediaStream) (ssrc : ℕ) (pkts : List RtpPacket) (clock : ℕ → ℕ)
    → IsReady m
    → (ssrc ≡ video_h264_ssrc) ⊎ (ssrc ≡ audio_opus_ssrc)
    → All (λ pkt. pkt.ssrc ≡ ssrc) pkts
    → Answers (on_rtp_packets_generated m pkts clock)
unfolding on_rtp_packets_generated on_rtp_packet_generated
Answers-on_rtp_packets_generated m ssrc [] clock ready known same = ((m, []), refl, ready)
Answers-on_rtp_packets_generated m ssrc (pkt ∷ pkts) clock ready known (same, rest) =
    let (track, found) =
      track_of m pkt.ssrc ready
        (subst (λ x. (x ≡ video_h264_ssrc) ⊎ (x ≡ audio_opus_ssrc)) (sym same) known) in
    let track' = receive_packet track pkt (clock 0) in
    let m' : MediaStream = record m { stream_tracks = insert m.stream_tracks pkt.ssrc track' } in
    let ((m'', outputs), later, ready'') =
      Answers-on_rtp_packets_generated m' ssrc pkts (λ k. clock (suc k))
        (IsReady-insert m pkt.ssrc track' ready) known rest in
    (
      (m'', (rtp_packet_send (take pkt.size pkt.packet_data) ∷ []) ++ outputs),
      rw (found, later) refl,
      ready'',
    )

module _ (to_clock : ℕ → ℕ → ℕ) where
  Answers-receive_h264_packet :
      (m : MediaStream) (packet : MediaPacket) (clock : ℕ → ℕ)
      → IsReady m
      → Answers (receive_h264_packet to_clock m packet clock)
  unfolding receive_h264_packet
  Answers-receive_h264_packet m packet clock ready =
      let r = pack_h264 to_clock ready.h264 packet in
      let (same, all) =
        pack_h264-OfSsrc to_clock ready.h264 video_h264_ssrc packet ready.h264_ssrc in
      let m' : MediaStream = record m { h264_packetizer = some r.0 } in
      let ready' : IsReady m' = record {
        h264 = r.0;
        has_h264 = refl;
        h264_ssrc = same;
        opus = ready.opus;
        has_opus = ready.has_opus;
        opus_ssrc = ready.opus_ssrc;
        video_track = ready.video_track;
        audio_track = ready.audio_track;
      } in
      rw ready.has_h264
        (Answers-on_rtp_packets_generated m' video_h264_ssrc r.1 clock ready' (inl refl) all)

  Answers-receive_opus_packet :
      (m : MediaStream) (packet : MediaPacket) (clock : ℕ → ℕ)
      → IsReady m
      → Answers (receive_opus_packet to_clock m packet clock)
  unfolding receive_opus_packet
  Answers-receive_opus_packet m packet clock ready =
      let r = pack_opus to_clock ready.opus packet in
      let (same, all) =
        pack_opus-OfSsrc to_clock ready.opus audio_opus_ssrc packet ready.opus_ssrc in
      let m' : MediaStream = record m { opus_packetizer = some r.0 } in
      let ready' : IsReady m' = record {
        h264 = ready.h264;
        has_h264 = ready.has_h264;
        h264_ssrc = ready.h264_ssrc;
        opus = r.0;
        has_opus = refl;
        opus_ssrc = same;
        video_track = ready.video_track;
        audio_track = ready.audio_track;
      } in
      rw ready.has_opus
        (Answers-on_rtp_packets_generated m' audio_opus_ssrc r.1 clock ready' (inr refl) all)

  IsReady-create_answer :
      (write : Answer → String) (l : Local) (h264 rtx opus : ℕ) (fresh fresh' : List ℕ)
      → IsReady (create_answer write l h264 rtx opus fresh fresh').1
  unfolding create_answer add_stream_track add_kind insert MediaStream.create packetizer
      video_rtp_params audio_rtp_params has_track
  IsReady-create_answer write l h264 rtx opus fresh fresh' = record {
    h264 = _;
    has_h264 = refl;
    h264_ssrc = refl;
    opus = _;
    has_opus = refl;
    opus_ssrc = refl;
    video_track = refl;
    audio_track = refl;
  }

  unfoldable pub receive_packet_of :
      MediaStream → MediaType → MediaPacket → (ℕ → ℕ) → Option (MediaStream × List Output)
  receive_packet_of m video packet clock = receive_h264_packet to_clock m packet clock
  receive_packet_of m audio packet clock = receive_opus_packet to_clock m packet clock

  Answers-receive_packet_of :
      (m : MediaStream) (kind : MediaType) (packet : MediaPacket) (clock : ℕ → ℕ)
      → IsReady m
      → Answers (receive_packet_of m kind packet clock)
  unfolding receive_packet_of
  Answers-receive_packet_of m video packet clock ready =
      Answers-receive_h264_packet m packet clock ready
  Answers-receive_packet_of m audio packet clock ready =
      Answers-receive_opus_packet m packet clock ready

  -- A stream takes the packets of a source in turn, with the readings of the clock for each.
  unfoldable pub receive_all :
      MediaStream → List MediaPacket → (ℕ → ℕ → ℕ) → Option (MediaStream × List Output)
  receive_all m [] clock = some (m, [])
  receive_all m (packet ∷ packets) clock = do
    (m, outputs) ← receive_packet_of m packet.packet_type packet (clock 0)
    (m, later) ← receive_all m packets (λ k. clock (suc k))
    some (m, outputs ++ later)

  Answers-receive_all :
      (m : MediaStream) (packets : List MediaPacket) (clock : ℕ → ℕ → ℕ)
      → IsReady m
      → Answers (receive_all m packets clock)
  unfolding receive_all receive_packet_of
  Answers-receive_all m [] clock ready = ((m, []), refl, ready)
  Answers-receive_all m (packet ∷ packets) clock ready =
      let ((m', outputs), first, ready') =
        Answers-receive_packet_of m packet.packet_type packet (clock 0) ready in
      let ((m'', later), rest, ready'') =
        Answers-receive_all m' packets (λ k. clock (suc k)) ready' in
      ((m'', outputs ++ later), rw (first, rest) refl, ready'')

  -- The media stream that `CreateAnswer` sets up takes any packets of the source, video and audio in any
  -- order, and never follows the null pointer of a track or of a packetizer that is not there.
  pub receive_all-create_answer :
      (write : Answer → String) (l : Local) (h264 rtx opus : ℕ) (fresh fresh' : List ℕ)
      (packets : List MediaPacket) (clock : ℕ → ℕ → ℕ)
      → (r : MediaStream × List Output) × (receive_all
            (create_answer write l h264 rtx opus fresh fresh').1
            packets
            clock
          ≡ some r)
        × IsReady r.0
  receive_all-create_answer write l h264 rtx opus fresh fresh' packets clock =
      Answers-receive_all (create_answer write l h264 rtx opus fresh fresh').1 packets clock
        (IsReady-create_answer write l h264 rtx opus fresh fresh')
