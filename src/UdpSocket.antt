-- ===== src/UdpSocket.antt =====
-- udp_socket.h and udp_socket.cpp. The socket of the network library is a parameter: `bind_port` says
-- whether a port can be bound, and `outstanding` counts the sends that it has not completed. A method
-- returns the socket after it and the messages that it hands to `async_send_to`.
pub mod Queue
pub mod Listen
use webrtc_stream_server.Prelude.{
  ℕ, zero, suc, ◌+◌, ◌-◌, ◌%◌, ◌^◌, Bool, true, false, List, [], ◌∷◌, ◌++◌, if◌then◌else◌, u16, leb,
  length, drop, take, ◌==◌,
}

pub record UdpMessage : Type 0 where
  pub buffer : List ℕ
  pub endpoint : ℕ

pub record UdpSocket : Type 0 where
  pub is_closing : Bool
  pub send_queue : List UdpMessage
  pub outstanding : ℕ

pub data Callback : Type 0 where
  data_received : List ℕ → ℕ → Callback
  socket_error : Callback

unfoldable pub create : UdpSocket
create = record { is_closing = false; send_queue = []; outstanding = 0 }

unfoldable pub do_send : UdpSocket → UdpSocket × List UdpMessage
do_send s =
    if s.is_closing
    then (s, [])
    else (record s { outstanding = s.outstanding + 1 }, take 1 s.send_queue)

unfoldable pub send_data : UdpSocket → UdpMessage → UdpSocket × List UdpMessage
send_data s message =
    let s' = record s { send_queue = s.send_queue ++ (message ∷ []) } in
    if length s'.send_queue == 1 then do_send s' else (s', [])

-- The completion of a send; `failed` is its error code. The assertion holds, as a theorem says.
unfoldable pub hand_send : UdpSocket → Bool → UdpSocket × (List UdpMessage × List Callback)
hand_send s failed =
    let done = record s { outstanding = s.outstanding - 1 } in
    let s' = record done { send_queue = drop 1 done.send_queue } in
    let (s'', messages) = if leb 1 (length s'.send_queue) then do_send s' else (s', []) in
    if s.is_closing
    then (done, ([], []))
    else (s'', (messages, if failed then socket_error ∷ [] else []))

unfoldable pub close : UdpSocket → UdpSocket
close s = record s { is_closing = true }

-- A datagram, or an error other than a message too long for the buffer; the second result says whether
-- the socket goes on receiving.
unfoldable pub handle_receive : UdpSocket → Bool → List ℕ → ℕ → List Callback × Bool
handle_receive s failed bytes endpoint =
    if s.is_closing
    then ([], false)
    else if failed
    then (socket_error ∷ [], false)
    else (data_received bytes endpoint ∷ [], true)

pub data Search : Type 0 where
  bound : ℕ → Search
  unavailable : Search
  running : Search

module _ (bind_port : ℕ → Bool) where
  -- `for (uint16_t i = min_port_; i <= max_port_; ++i)`; `running` is a loop that goes on.
  unfoldable pub listen_loop : ℕ → ℕ → ℕ → Search
  listen_loop zero i max_port = running
  listen_loop (suc fuel) i max_port =
      let next = listen_loop fuel (u16 (i + 1)) max_port in
      if leb i max_port then (if bind_port i then bound i else next) else unavailable
