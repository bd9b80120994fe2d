-- ===== src/Signaling.antt =====
-- signaling_session.h and signaling_session.cpp: what a request over HTTP does. The HTTP and the JSON
-- library give the request in parts; a body that does not parse is an exception, `none`.
pub mod Requests
pub mod Exchange
use Prim.Native.String.{String, slice, len}
use text.Mathlib.Text.{◌==◌ as str_eq, starts_with, find?}
use webrtc_stream_server.Prelude.{
  ℕ, ◌+◌, Bool, true, false, Option, none, some, List, [], ◌∷◌, ◌++◌, if◌then◌else◌, ◌&&◌,
}
use webrtc_stream_server.MediaSourceManager
use webrtc_stream_server.MediaSourceManager.{MediaSource, MediaSourceManager}
use webrtc_stream_server.WebrtcTransport.Offer
use webrtc_stream_server.WebrtcTransport.Offer.{Session, Offered, set_offer}
use webrtc_stream_server.WebrtcTransport.Answer.{Answer, Local, create_answer}

pub data Method : Type 0 where
  http_get http_post http_delete http_other : Method

pub record Request : Type 0 where
  pub target : String
  pub method : Method
  pub body : String

pub record PlayBody : Type 0 where
  pub stream_id : String
  pub offer : String

-- The JSON of the response: `null_body` is an object that nothing was written to.
pub data Response : Type 0 where
  null_body : Response
  failed : Response
  answered : String → Response
  added : String → Response
  listed : List (String × String) → Response

-- The managers, and which transport is registered with which source.
pub record Server : Type 0 where
  pub media_sources : MediaSourceManager
  pub transports : List ℕ
  pub registrations : List (ℕ × ℕ)
  pub created : ℕ

-- What the libraries and the environment supply: the JSON of a body, the SDP of an offer and of an answer,
-- whether a URL opens and a transport starts, and the random identifier.
pub record Environment : Type 0 where
  pub parse_play : String → Option PlayBody
  pub parse_url : String → Option String
  pub parse_offer : String → Session
  pub write_answer : Answer → String
  pub open_source : String → Bool
  pub starts : Bool
  pub local_values : Local
  pub random_id : String
  pub fresh : List ℕ

module _ (env : Environment) where
  unfoldable pub answer_of : Offered → Option ℕ → Option ℕ → Option ℕ → Option String
  answer_of o (some h264) (some rtx) (some opus) =
      some (create_answer env.write_answer env.local_values h264 rtx opus env.fresh env.fresh).0
  answer_of o none rtx opus = none
  answer_of o (some h264) none opus = none
  answer_of o (some h264) (some rtx) none = none

  -- The answer to an offer that is accepted, when the transport starts.
  unfoldable pub answer_offer : Option Offered → Option String
  answer_offer none = none
  answer_offer (some o) =
      if env.starts
      then answer_of o o.rtp_h264_payload o.rtp_h264_rtx_payload o.rtp_opus_payload
      else none

  unfoldable pub play_answered : Server → MediaSource → Option String → Server × Response
  play_answered s source none = (record s { created = s.created + 1 }, failed)
  play_answered s source (some sdp) = (
    record s {
      transports = s.created ∷ s.transports;
      registrations = (source.number, s.created) ∷ s.registrations;
      created = s.created + 1;
    },
    answered sdp,
  )

  unfoldable pub play_source : Server → Option MediaSource → String → Server × Response
  play_source s none offer = (s, failed)
  play_source s (some source) offer =
      play_answered s source (answer_offer (set_offer env.parse_offer Offer.create offer))

  unfoldable pub play : Server → Option PlayBody → Option (Server × Response)
  play s none = none
  play s (some body) =
      some (play_source s (MediaSourceManager.query s.media_sources body.stream_id) body.offer)

  unfoldable pub added_source : Server → MediaSourceManager × Option String → Server × Response
  added_source s (m, none) = (record s { media_sources = m }, failed)
  added_source s (m, some id) = (record s { media_sources = m }, added id)

  unfoldable pub add_stream : Server → Option String → Option (Server × Response)
  add_stream s none = none
  add_stream s (some url) =
      some
        (added_source s (MediaSourceManager.add env.open_source s.media_sources url env.random_id))

  unfoldable pub delete_at : Server → String → Option ℕ → Server × Response
  delete_at s target none = (s, failed)
  delete_at s target (some pos) = (
    record s {
      media_sources =
          MediaSourceManager.remove s.media_sources
            (slice target (pos + len "/streams/") (len target));
    },
    null_body,
  )

  unfoldable pub handle_streams : Method → Server → Request → Option (Server × Response)
  handle_streams http_get s request = some (s, listed (MediaSourceManager.list s.media_sources))
  handle_streams http_post s request = add_stream s (env.parse_url request.body)
  handle_streams http_delete s request =
      some (delete_at s request.target (find? request.target "/streams/"))
  handle_streams http_other s request = some (s, failed)

  unfoldable pub handle_play : Method → Server → Request → Option (Server × Response)
  handle_play http_post s request = play s (env.parse_play request.body)
  handle_play http_get s request = some (s, null_body)
  handle_play http_delete s request = some (s, null_body)
  handle_play http_other s request = some (s, null_body)

  unfoldable pub handle_request : Server → Request → Option (Server × Response)
  handle_request s request =
      if str_eq request.target "/play"
      then handle_play request.method s request
      else if starts_with request.target "/streams"
      then handle_streams request.method s request
      else some (s, failed)
