-- ===== src/MediaSource/Opening.antt =====
-- `Open` of media_source.cpp. What the calls of the media library answer is a parameter.
pub mod Streams
pub mod Selected
use Prim.Native.String.{String}
use text.Mathlib.Text.{starts_with}
use webrtc_stream_server.Prelude.{
  ℕ, suc, ◌+◌, Bool, true, false, Option, none, some, List, [], ◌∷◌, if◌then◌else◌, ◌&&◌, ◌>>=◌,
}

pub data CodecType : Type 0 where
  video_codec audio_codec other_codec : CodecType

pub record StreamInfo : Type 0 where
  pub codec_type : CodecType
  pub is_h264 : Bool

-- The answers of the calls in their order; `streams` is what the library finds.
pub record Answers : Type 0 where
  pub alloc_context : Bool
  pub open_input : Bool
  pub find_stream_info : Bool
  pub streams : List StreamInfo
  pub parse_filter : Bool
  pub copy_parameters : Bool
  pub init_filter : Bool

-- The two indices, where `none` is -1.
pub record Indices : Type 0 where
  pub video_index : Option ℕ
  pub audio_index : Option ℕ

-- A source after `Open`: whether it succeeded, and whether `Stop` was called by the guard.
pub record Opened : Type 0 where
  pub is_open : Bool
  pub is_stopped : Bool
  pub url : String
  pub indices : Indices

unfoldable pub select_stream : Indices → ℕ → CodecType → Bool → Option Indices
select_stream s i video_codec true = some (record s { video_index = some i })
select_stream s i video_codec false = none
select_stream s i audio_codec is_h264 = some (record s { audio_index = some i })
select_stream s i other_codec is_h264 = some s

-- The loop over the streams; `none` is a video codec other than H264.
unfoldable pub select_streams : Indices → ℕ → List StreamInfo → Option Indices
select_streams s i [] = some s
select_streams s i (info ∷ infos) = do
  s ← select_stream s i info.codec_type info.is_h264
  select_streams s (i + 1) infos

unfoldable pub is_some : Option ℕ → Bool
is_some none = false
is_some (some i) = true

-- What the guard does unless it is dismissed. The caller drops a refused source, with the indices it has;
-- those of a loop that a codec ended are not kept here.
unfoldable pub refuse : Indices → Opened
refuse s = record { is_open = false; is_stopped = true; url = ""; indices = s }

unfoldable pub open_filter : Answers → String → Indices → Opened
open_filter a url s =
    if is_some s.video_index && is_some s.audio_index
    then if a.parse_filter
      then if a.copy_parameters
        then if a.init_filter
          then record { is_open = true; is_stopped = false; url = url; indices = s }
          else refuse s
        else refuse s
      else refuse s
    else refuse s

unfoldable pub open_selected : Answers → String → Option Indices → Opened
open_selected a url none = refuse (record { video_index = none; audio_index = none })
open_selected a url (some s) = open_filter a url s

-- The guard is set after the test of the URL.
unfoldable pub open_source : Answers → String → Opened
open_source a url =
    let unset : Indices = record { video_index = none; audio_index = none } in
    let opened = open_selected a url (select_streams unset 0 a.streams) in
    if starts_with url "rtmp://"
    then if a.alloc_context
      then if a.open_input
        then if a.find_stream_info then opened else refuse unset
        else refuse unset
      else refuse unset
    else record { is_open = false; is_stopped = false; url = ""; indices = unset }
