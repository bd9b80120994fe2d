-- ===== src/WebrtcTransportManager.antt =====
-- webrtc_transport_manager.h and webrtc_transport_manager.cpp: the set of running transports, which only
-- the tasks of its message loop change. A transport is the number of its object, and `stopped` lists
-- those whose `Stop` was called.
pub mod Lifetime
use webrtc_stream_server.Prelude.{ℕ, Bool, true, false, List, [], ◌∷◌, ◌++◌, if◌then◌else◌, ◌==◌}

pub data Task : Type 0 where
  insert_task : ℕ → Task
  remove_task : ℕ → Task

pub record WebrtcTransportManager : Type 0 where
  pub webrtc_transports : List ℕ
  pub message_loop : List Task
  pub stopped : List ℕ

unfoldable pub create : WebrtcTransportManager
create = record { webrtc_transports = []; message_loop = []; stopped = [] }

unfoldable pub contains : List ℕ → ℕ → Bool
contains [] transport = false
contains (t ∷ ts) transport =
    let rest = contains ts transport in if t == transport then true else rest

-- `std::unordered_set::insert` and `erase`.
unfoldable pub insert : List ℕ → ℕ → List ℕ
insert ts transport = if contains ts transport then ts else transport ∷ ts

unfoldable pub erase : List ℕ → ℕ → List ℕ
erase [] transport = []
erase (t ∷ ts) transport =
    let rest = erase ts transport in if t == transport then rest else t ∷ rest

unfoldable pub add : WebrtcTransportManager → ℕ → WebrtcTransportManager
add m transport = record m { message_loop = m.message_loop ++ (insert_task transport ∷ []) }

unfoldable pub remove : WebrtcTransportManager → ℕ → WebrtcTransportManager
remove m transport = record m { message_loop = m.message_loop ++ (remove_task transport ∷ []) }

-- A transport that is not in the set is only logged.
unfoldable pub run_task : WebrtcTransportManager → Task → WebrtcTransportManager
run_task m (insert_task transport) = record m {
  webrtc_transports = insert m.webrtc_transports transport;
}
run_task m (remove_task transport) =
    if contains m.webrtc_transports transport
    then record m {
      webrtc_transports = erase m.webrtc_transports transport;
      stopped = transport ∷ m.stopped;
    }
    else m

unfoldable pub run_tasks : WebrtcTransportManager → List Task → WebrtcTransportManager
run_tasks m [] = m
run_tasks m (task ∷ tasks) = run_tasks (run_task m task) tasks

-- The message loop runs what has been posted.
unfoldable pub run_loop : WebrtcTransportManager → WebrtcTransportManager
run_loop m = run_tasks (record m { message_loop = [] }) m.message_loop
