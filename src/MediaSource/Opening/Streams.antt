-- ===== src/MediaSource/Opening/Streams.antt =====
-- What the loop over the streams leaves in the two indices.
use webrtc_stream_server.Prelude.{
  ℕ, ◌+◌, ◌≡◌, ◌⊎◌, refl, ◌∙◌, subst, Bool, true, false, none, some, List, [], ◌∷◌, inl, inr,
  Option-cases,
}
use webrtc_stream_server.MediaSource.Opening.{
  CodecType, video_codec, audio_codec, other_codec, StreamInfo, Indices, select_stream,
  select_streams,
}

-- The stream at an index of the list whose first index is `i`.
pub data At : ℕ → List StreamInfo → ℕ → StreamInfo → Type 0 where
  at_first : (i : ℕ) (info : StreamInfo) (infos : List StreamInfo) → At i (info ∷ infos) i info
  at_later :
      (i j : ℕ) (info found : StreamInfo) (infos : List StreamInfo)
      → At (i + 1) infos j found
      → At i (info ∷ infos) j found

-- The index is that of an H264 stream, or that of an audio stream.
pub record IsVideoAt (i : ℕ) (infos : List StreamInfo) (j : ℕ) : Type 0 where
  pub info : StreamInfo
  pub found : At i infos j info
  pub is_video : info.codec_type ≡ video_codec
  pub has_h264 : info.is_h264 ≡ true

pub record IsAudioAt (i : ℕ) (infos : List StreamInfo) (j : ℕ) : Type 0 where
  pub info : StreamInfo
  pub found : At i infos j info
  pub is_audio : info.codec_type ≡ audio_codec

later_video :
    (i j : ℕ) (info : StreamInfo) (infos : List StreamInfo)
    → IsVideoAt (i + 1) infos j
    → IsVideoAt i (info ∷ infos) j
later_video i j info infos v = record {
  info = v.info;
  found = at_later i j info v.info infos v.found;
  is_video = v.is_video;
  has_h264 = v.has_h264;
}

later_audio :
    (i j : ℕ) (info : StreamInfo) (infos : List StreamInfo)
    → IsAudioAt (i + 1) infos j
    → IsAudioAt i (info ∷ infos) j
later_audio i j info infos v = record {
  info = v.info;
  found = at_later i j info v.info infos v.found;
  is_audio = v.is_audio;
}

-- What a stream does to the two indices.
abbrev Selects : Indices → ℕ → StreamInfo → Indices → Type 0
Selects s i info s' =
    ((s'.video_index ≡ s.video_index)
      ⊎ ((s'.video_index ≡ some i) × (info.codec_type ≡ video_codec) × (info.is_h264 ≡ true)))
    × ((s'.audio_index ≡ s.audio_index)
        ⊎ ((s'.audio_index ≡ some i) × (info.codec_type ≡ audio_codec)))

select_stream-Selects :
    (s s' : Indices) (i : ℕ) (codec_type : CodecType) (is_h264 : Bool)
    → select_stream s i codec_type is_h264 ≡ some s'
    → Selects s i (record { codec_type = codec_type; is_h264 = is_h264 }) s'
unfolding select_stream
select_stream-Selects s s' i video_codec true e =
    let s1 : Indices = record s { video_index = some i } in
    let same : s1 ≡ s' = (let f : some s1 ≡ some s' = e in cc) in
    subst (Selects s i (record { codec_type = video_codec; is_h264 = true })) same
      (inr (refl, refl, refl), inl refl)
select_stream-Selects s s' i video_codec false e = absurd (let f : none ≡ some s' = e in cc)
select_stream-Selects s s' i audio_codec is_h264 e =
    let s1 : Indices = record s { audio_index = some i } in
    let same : s1 ≡ s' = (let f : some s1 ≡ some s' = e in cc) in
    subst (Selects s i (record { codec_type = audio_codec; is_h264 = is_h264 })) same
      (inl refl, inr (refl, refl))
select_stream-Selects s s' i other_codec is_h264 e =
    let same : s ≡ s' = (let f : some s ≡ some s' = e in cc) in
    subst (Selects s i (record { codec_type = other_codec; is_h264 = is_h264 })) same
      (inl refl, inl refl)

-- What the loop leaves in the two indices.
abbrev pub Selected : Indices → ℕ → List StreamInfo → Indices → Type 0
Selected s i infos s' =
    ((s'.video_index ≡ s.video_index) ⊎ ((j : ℕ) × (s'.video_index ≡ some j) × IsVideoAt i infos j))
    × ((s'.audio_index ≡ s.audio_index)
        ⊎ ((j : ℕ) × (s'.audio_index ≡ some j) × IsAudioAt i infos j))

video_then :
    (i : ℕ) (info : StreamInfo) (infos : List StreamInfo) (s s1 s' : Indices)
    → (s1.video_index ≡ s.video_index)
      ⊎ ((s1.video_index ≡ some i) × (info.codec_type ≡ video_codec) × (info.is_h264 ≡ true))
    → (s'.video_index ≡ s1.video_index)
      ⊎ ((j : ℕ) × (s'.video_index ≡ some j) × IsVideoAt (i + 1) infos j)
    → (s'.video_index ≡ s.video_index)
      ⊎ ((j : ℕ) × (s'.video_index ≡ some j) × IsVideoAt i (info ∷ infos) j)
video_then i info infos s s1 s' step (inr (j, e, v)) = inr (j, e, later_video i j info infos v)
video_then i info infos s s1 s' (inl kept) (inl e) = inl (e ∙ kept)
video_then i info infos s s1 s' (inr (here, is_video, h264)) (inl e) = inr (
  i,
  e ∙ here,
  record { info = info; found = at_first i info infos; is_video = is_video; has_h264 = h264 },
)

audio_then :
    (i : ℕ) (info : StreamInfo) (infos : List StreamInfo) (s s1 s' : Indices)
    → (s1.audio_index ≡ s.audio_index)
      ⊎ ((s1.audio_index ≡ some i) × (info.codec_type ≡ audio_codec))
    → (s'.audio_index ≡ s1.audio_index)
      ⊎ ((j : ℕ) × (s'.audio_index ≡ some j) × IsAudioAt (i + 1) infos j)
    → (s'.audio_index ≡ s.audio_index)
      ⊎ ((j : ℕ) × (s'.audio_index ≡ some j) × IsAudioAt i (info ∷ infos) j)
audio_then i info infos s s1 s' step (inr (j, e, v)) = inr (j, e, later_audio i j info infos v)
audio_then i info infos s s1 s' (inl kept) (inl e) = inl (e ∙ kept)
audio_then i info infos s s1 s' (inr (here, is_audio)) (inl e) =
    inr (i, e ∙ here, record { info = info; found = at_first i info infos; is_audio = is_audio })

pub select_streams-Selected :
    (s s' : Indices) (i : ℕ) (infos : List StreamInfo)
    → select_streams s i infos ≡ some s'
    → Selected s i infos s'
unfolding select_streams
select_streams-Selected s s' i [] e =
    let same : s ≡ s' = (let f : some s ≡ some s' = e in cc) in
    subst (Selected s i []) same (inl refl, inl refl)
select_streams-Selected s s' i (info ∷ infos) e =
    elim (Option-cases (select_stream s i info.codec_type info.is_h264)) [
      | inl fails ↦ absurd (let f : none ≡ some s' = rw fails at e in cc)
      | inr (s1, first) ↦
          let step = select_stream-Selects s s1 i info.codec_type info.is_h264 first in
          let rest = select_streams-Selected s1 s' (i + 1) infos (rw first at e) in
          (
            video_then i info infos s s1 s' step.0 rest.0,
            audio_then i info infos s s1 s' step.1 rest.1,
          )
    ]
