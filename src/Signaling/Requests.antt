-- ===== src/Signaling/Requests.antt =====
-- What a refused request leaves.
use Prim.Native.String.{String}
use text.Mathlib.Text.{◌==◌ as str_eq, starts_with, find?}
use webrtc_stream_server.Prelude.{
  ℕ, ◌≡◌, refl, subst, Bool, true, false, Option, none, some, inl, inr, Bool-cases,
}
use webrtc_stream_server.MediaSourceManager
use webrtc_stream_server.MediaSourceManager.{
  MediaSource, MediaSourceManager, find_url, add_new, add_unless,
}
use webrtc_stream_server.WebrtcTransport.Offer
use webrtc_stream_server.WebrtcTransport.Offer.{set_offer}
use webrtc_stream_server.Signaling.{
  Method, http_get, http_post, http_delete, http_other, Request, PlayBody, Response, null_body,
  failed, answered, added, listed, Server, Environment, answer_offer, play_answered, play_source,
  play, added_source, add_stream, delete_at, handle_streams, handle_play, handle_request,
}

-- The streams, the transports and the registrations are the same.
abbrev pub Kept : Server → Server → Type 0
Kept s s' =
    (s'.media_sources.database ≡ s.media_sources.database)
    × (s'.transports ≡ s.transports)
    × (s'.registrations ≡ s.registrations)

-- A response that is an error comes with a server that is kept.
unfoldable KeptIfFailed : Server → Server × Response → Type 0
KeptIfFailed s (s', failed) = Kept s s'
KeptIfFailed s (s', null_body) = Unit
KeptIfFailed s (s', answered sdp) = Unit
KeptIfFailed s (s', added id) = Unit
KeptIfFailed s (s', listed streams) = Unit

unfoldable KeptResult : Server → Option (Server × Response) → Type 0
KeptResult s none = Unit
KeptResult s (some r) = KeptIfFailed s r

module _ (env : Environment) where
  Kept-play_answered :
      (s : Server) (source : MediaSource) (o : Option String)
      → KeptIfFailed s (play_answered env s source o)
  unfolding play_answered KeptIfFailed
  Kept-play_answered s source none = (refl, refl, refl)
  Kept-play_answered s source (some sdp) = tt

  Kept-play_source :
      (s : Server) (o : Option MediaSource) (offer : String)
      → KeptIfFailed s (play_source env s o offer)
  unfolding play_source
  Kept-play_source s none offer = unfold KeptIfFailed in (refl, refl, refl)
  Kept-play_source s (some source) offer =
      Kept-play_answered s source (answer_offer env (set_offer env.parse_offer Offer.create offer))

  Kept-play : (s : Server) (o : Option PlayBody) → KeptResult s (play env s o)
  unfolding play KeptResult
  Kept-play s none = tt
  Kept-play s (some body) =
      Kept-play_source s (MediaSourceManager.query s.media_sources body.stream_id) body.offer

  Kept-add_new :
      (s : Server) (opened : Bool) (url id : String)
      → KeptIfFailed s (added_source env s (add_new s.media_sources opened url id))
  unfolding added_source add_new KeptIfFailed
  Kept-add_new s true url id = tt
  Kept-add_new s false url id = (refl, refl, refl)

  Kept-add_unless :
      (s : Server) (o : Option String) (opened : Bool) (url id : String)
      → KeptIfFailed s (added_source env s (add_unless s.media_sources o opened url id))
  unfolding add_unless
  Kept-add_unless s none opened url id = Kept-add_new s opened url id
  Kept-add_unless s (some existing) opened url id = unfold added_source KeptIfFailed in tt

  Kept-add_stream : (s : Server) (o : Option String) → KeptResult s (add_stream env s o)
  unfolding add_stream KeptResult MediaSourceManager.add
  Kept-add_stream s none = tt
  Kept-add_stream s (some url) =
      Kept-add_unless s (find_url url s.media_sources.database) (env.open_source url) url
        env.random_id

  Kept-delete_at :
      (s : Server) (target : String) (o : Option ℕ) → KeptIfFailed s (delete_at env s target o)
  unfolding delete_at KeptIfFailed
  Kept-delete_at s target none = (refl, refl, refl)
  Kept-delete_at s target (some pos) = tt

  Kept-handle_streams :
      (m : Method) (s : Server) (request : Request) → KeptResult s (handle_streams env m s request)
  unfolding handle_streams KeptResult
  Kept-handle_streams http_get s request = unfold KeptIfFailed in tt
  Kept-handle_streams http_post s request = Kept-add_stream s (env.parse_url request.body)
  Kept-handle_streams http_delete s request =
      Kept-delete_at s request.target (find? request.target "/streams/")
  Kept-handle_streams http_other s request = unfold KeptIfFailed in (refl, refl, refl)

  Kept-handle_play :
      (m : Method) (s : Server) (request : Request) → KeptResult s (handle_play env m s request)
  unfolding handle_play
  Kept-handle_play http_post s request = Kept-play s (env.parse_play request.body)
  Kept-handle_play http_get s request = unfold KeptResult KeptIfFailed in tt
  Kept-handle_play http_delete s request = unfold KeptResult KeptIfFailed in tt
  Kept-handle_play http_other s request = unfold KeptResult KeptIfFailed in tt

  Kept-handle_request :
      (s : Server) (request : Request) → KeptResult s (handle_request env s request)
  unfolding handle_request
  Kept-handle_request s request = elim (Bool-cases (str_eq request.target "/play")) [
    | inl plays ↦ rw plays (Kept-handle_play request.method s request)
    | inr other ↦ elim (Bool-cases (starts_with request.target "/streams")) [
      | inl streams ↦ rw (other, streams) (Kept-handle_streams request.method s request)
      | inr unknown ↦ rw (other, unknown) (unfold KeptResult KeptIfFailed in (refl, refl, refl))
    ]
  ]

  -- Whatever the target, the method and the body: when the response is an error, no stream was added or
  -- removed, no transport was handed to its manager, and none was registered with a source.
  pub handle_request-failed :
      (s s' : Server) (request : Request)
      → handle_request env s request ≡ some (s', failed)
      → Kept s s'
  unfolding KeptResult KeptIfFailed
  handle_request-failed s s' request e =
      let kept : KeptResult s (some (s', failed)) =
        subst (KeptResult s) e (Kept-handle_request s request) in
      kept
