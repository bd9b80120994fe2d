-- ===== src/MediaSource/Opening/Selected.antt =====
-- What `Open` has found when it succeeds.
use Prim.Native.String.{String}
use text.Mathlib.Text.{starts_with}
use webrtc_stream_server.Prelude.{
  ℕ, ◌≡◌, ◌⊎◌, refl, sym, ap, ◌∙◌, true, false, Option, none, some, ◌&&◌, inl, inr, Bool-cases,
}
use webrtc_stream_server.MediaSource.Opening.{
  Answers, Indices, select_streams, is_some, refuse, open_filter, open_selected, open_source,
}
use webrtc_stream_server.MediaSource.Opening.Streams.{IsVideoAt, IsAudioAt, select_streams-Selected}

indices-open_filter : (a : Answers) (url : String) (s : Indices) → (open_filter a url s).indices ≡ s
unfolding open_filter refuse
indices-open_filter a url s = elim (Bool-cases (is_some s.video_index && is_some s.audio_index)) [
  | inr lacks ↦ rw lacks refl
  | inl both ↦ elim (Bool-cases a.parse_filter) [
    | inr fails ↦ simp (both, fails) refl
    | inl parsed ↦ elim (Bool-cases a.copy_parameters) [
      | inr fails ↦ simp (both, parsed, fails) refl
      | inl copied ↦ elim (Bool-cases a.init_filter) [
        | inr fails ↦ simp (both, parsed, copied, fails) refl
        | inl ready ↦ simp (both, parsed, copied, ready) refl
      ]
    ]
  ]
]

-- An open source has both indices.
open_filter-both :
    (a : Answers) (url : String) (s : Indices)
    → (open_filter a url s).is_open ≡ true
    → (is_some s.video_index ≡ true)
      × (is_some s.audio_index ≡ true)
      × ((open_filter a url s).indices ≡ s)
unfolding open_filter refuse
open_filter-both a url s e = elim (Bool-cases (is_some s.video_index)) [
  | inr lacks ↦ absurd (let f : false ≡ true = rw lacks at e in cc)
  | inl v ↦ elim (Bool-cases (is_some s.audio_index)) [
    | inr lacks ↦ absurd (let f : false ≡ true = rw (v, lacks) at e in cc)
    | inl w ↦ (v, w, indices-open_filter a url s)
  ]
]

set_index :
    (x y : Option ℕ) {P : ℕ → Type 0}
    → is_some x ≡ true
    → y ≡ none
    → (x ≡ y) ⊎ ((j : ℕ) × (x ≡ some j) × P j)
    → (j : ℕ) × (x ≡ some j) × P j
unfolding is_some
set_index x y set absent (inr found) = found
set_index x y set absent (inl same) =
    absurd (let f : false ≡ true = sym (ap is_some (same ∙ absent)) ∙ set in cc)

open_selected-Selected :
    (a : Answers) (url : String) (o : Option Indices)
    → select_streams (record { video_index = none; audio_index = none }) 0 a.streams ≡ o
    → (open_selected a url o).is_open ≡ true
    → ((i : ℕ) × ((open_selected a url o).indices.video_index ≡ some i) × IsVideoAt 0 a.streams i)
      × ((j : ℕ) × ((open_selected a url o).indices.audio_index ≡ some j) × IsAudioAt 0 a.streams j)
unfolding open_selected refuse
open_selected-Selected a url none e h = absurd (let f : false ≡ true = h in cc)
open_selected-Selected a url (some s) e h =
    let (v, w, kept) = open_filter-both a url s h in
    let (video, audio) =
      select_streams-Selected (record { video_index = none; audio_index = none }) s 0 a.streams e in
    let (i, at_i, is_v) = set_index s.video_index none v refl video in
    let (j, at_j, is_a) = set_index s.audio_index none w refl audio in
    ((i, ap (λ x. x.video_index) kept ∙ at_i, is_v), (j, ap (λ x. x.audio_index) kept ∙ at_j, is_a))

-- When `Open` succeeds, the URL is one of RTMP, the video index is that of a stream in H264, the audio
-- index that of an audio stream, and every call of the media library has succeeded before.
pub open_source-Selected :
    (a : Answers) (url : String)
    → (open_source a url).is_open ≡ true
    → (starts_with url "rtmp://" ≡ true)
      × (a.alloc_context && (a.open_input && a.find_stream_info) ≡ true)
      × ((i : ℕ) × ((open_source a url).indices.video_index ≡ some i) × IsVideoAt 0 a.streams i)
      × ((j : ℕ) × ((open_source a url).indices.audio_index ≡ some j) × IsAudioAt 0 a.streams j)
unfolding open_source refuse
open_source-Selected a url e = elim (Bool-cases (starts_with url "rtmp://")) [
  | inr other ↦ absurd (let f : false ≡ true = rw other at e in cc)
  | inl rtmp ↦ elim (Bool-cases a.alloc_context) [
    | inr fails ↦ absurd (let f : false ≡ true = simp (rtmp, fails) at e in cc)
    | inl allocated ↦ elim (Bool-cases a.open_input) [
      | inr fails ↦ absurd (let f : false ≡ true = simp (rtmp, allocated, fails) at e in cc)
      | inl opened ↦ elim (Bool-cases a.find_stream_info) [
        | inr fails ↦
            absurd (let f : false ≡ true = simp (rtmp, allocated, opened, fails) at e in cc)
        | inl informed ↦
            let o =
              select_streams (record { video_index = none; audio_index = none }) 0 a.streams in
            let whole : open_source a url ≡ open_selected a url o =
              simp (rtmp, allocated, opened, informed) refl in
            let (video, audio) =
              open_selected-Selected a url o refl (sym (ap (λ x. x.is_open) whole) ∙ e) in
            let (i, at_i, is_v) = video in
            let (j, at_j, is_a) = audio in
            (
              rtmp,
              simp (allocated, opened, informed) refl,
              (i, ap (λ x. x.indices.video_index) whole ∙ at_i, is_v),
              (j, ap (λ x. x.indices.audio_index) whole ∙ at_j, is_a),
            )
      ]
    ]
  ]
]
