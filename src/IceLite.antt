-- ===== src/IceLite.antt =====
-- ice_lite.h and ice_lite.cpp: the candidates that a peer's checks have validated, and the one that it
-- has chosen. `parse` and `respond` are the calls of the STUN message; the callbacks are results.
pub mod Nomination
use webrtc_stream_server.Prelude.{
  ℕ, Bool, true, false, not, List, [], ◌∷◌, ◌++◌, Option, none, some, if◌then◌else◌, ◌==◌,
}
use webrtc_stream_server.StunMessage.{StunMessage}

pub record IceLite : Type 0 where
  pub valid_candidates : List ℕ
  pub favored_candidate : ℕ
  pub old_favored_candidate : ℕ

pub data Callback : Type 0 where
  connection_completed : Callback
  connection_error : Callback
  stun_message_send : List ℕ → ℕ → Callback

-- An endpoint is a number here, and 0 the one that `udp::endpoint` constructs by default.
unfoldable pub create : IceLite
create = record { valid_candidates = []; favored_candidate = 0; old_favored_candidate = 0 }

unfoldable pub contains : List ℕ → ℕ → Bool
contains [] ep = false
contains (x ∷ xs) ep = if x == ep then true else contains xs ep

-- `std::set::emplace`.
unfoldable pub emplace : List ℕ → ℕ → List ℕ
unfolding contains
emplace xs ep = if contains xs ep then xs else ep ∷ xs

unfoldable pub use_candidate : IceLite → ℕ → IceLite × List Callback
use_candidate ice remote_ep =
    let ice' = record ice {
      old_favored_candidate = ice.favored_candidate;
      favored_candidate = remote_ep;
    } in
    if contains ice.valid_candidates remote_ep
    then (ice', if ice.favored_candidate == remote_ep then [] else connection_completed ∷ [])
    else (ice, [])

module _ (respond : StunMessage → ℕ → List ℕ) where
  unfoldable pub process_parsed : IceLite → ℕ → Option StunMessage → IceLite × List Callback
  process_parsed ice remote_ep none = (ice, connection_error ∷ [])
  process_parsed ice remote_ep (some msg) =
      let (ice', callbacks) =
        if msg.has_use_candidate then use_candidate ice remote_ep else (ice, []) in
      (
        record ice' { valid_candidates = emplace ice'.valid_candidates remote_ep },
        callbacks ++ (stun_message_send (respond msg remote_ep) remote_ep ∷ []),
      )

  unfoldable pub process_stun_message :
      (List ℕ → Option StunMessage) → IceLite → List ℕ → ℕ → IceLite × List Callback
  process_stun_message parse ice bytes remote_ep = process_parsed ice remote_ep (parse bytes)
