-- ===== src/Signaling/Exchange.antt =====
-- The reading and writing of a `SignalingSession`: after each completion, what it starts next.
use webrtc_stream_server.Prelude.{Bool, Option, none, some, List, [], ◌∷◌, if◌then◌else◌}
use webrtc_stream_server.Signaling.{Request, Response, Server, Environment, handle_request}

-- How a read ended.
pub data ReadResult : Type 0 where
  request_read : Request → ReadResult
  end_of_stream : ReadResult
  read_error : ReadResult

-- What the session has started: a read, the write of a response, or the shutdown of its stream.
pub data Operation : Type 0 where
  async_read : Operation
  async_write : Response → Operation
  shutdown_send : Operation

unfoldable pub write_response : Option (Server × Response) → Option (Server × List Operation)
write_response none = none
write_response (some (s, response)) = some (s, async_write response ∷ [])

-- `none` is the exception of a body that does not parse.
unfoldable pub on_read : Environment → Server → ReadResult → Option (Server × List Operation)
on_read env s (request_read request) = write_response (handle_request env s request)
on_read env s end_of_stream = some (s, shutdown_send ∷ [])
on_read env s read_error = some (s, [])

unfoldable pub on_write : Bool → Bool → List Operation
on_write close failed = if failed then [] else if close then shutdown_send ∷ [] else async_read ∷ []

unfoldable pub run : List Operation
run = async_read ∷ []
