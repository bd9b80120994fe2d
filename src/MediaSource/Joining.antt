-- ===== src/MediaSource/Joining.antt =====
-- What one observer receives, over the locked regions in any order.
pub mod Counts
pub mod Settled
pub mod Whole
use webrtc_stream_server.Prelude.{
  ℕ, zero, suc, ◌+◌, ◌≡◌, ◌≢◌, refl, sym, ap, ap₂, ◌∙◌, Bool, true, false, List, [], ◌∷◌, ◌++◌,
  append_assoc, append-nil, if◌then◌else◌, ◌==◌, arith,
}
use webrtc_stream_server.MediaPacket.{MediaPacket}
use webrtc_stream_server.MediaSource.Observers.{
  Observers, Call, create, join_all, check_new_observer, register_observer, deregister_observer,
  deliver,
}

-- The locked regions; those of the work thread are `joined` and `generated`.
pub data Step : Type 0 where
  registered : ℕ → Step
  deregistered : ℕ → Step
  joined : Step
  generated : MediaPacket → Step

unfoldable pub apply : Bool → Observers → Step → Observers × List Call
apply gop s (registered o) = (register_observer gop s o, [])
apply gop s (deregistered o) = (deregister_observer gop s o, [])
apply gop s joined = if gop then check_new_observer s else (s, [])
apply gop s (generated pkt) = deliver gop s pkt

unfoldable pub run : Bool → Observers → List Step → Observers × List Call
run gop s [] = (s, [])
run gop s (step ∷ steps) =
    let (s', calls) = apply gop s step in
    let (s'', later) = run gop s' steps in (s'', calls ++ later)

unfoldable pub packets : List Step → List MediaPacket
packets [] = []
packets (generated pkt ∷ steps) = pkt ∷ packets steps
packets (registered o ∷ steps) = packets steps
packets (deregistered o ∷ steps) = packets steps
packets (joined ∷ steps) = packets steps

pub run-append :
    (gop : Bool) (s : Observers) (xs ys : List Step)
    → run gop s (xs ++ ys)
      ≡ ((run gop (run gop s xs).0 ys).0, (run gop s xs).1 ++ (run gop (run gop s xs).0 ys).1)
unfolding run
run-append gop s [] ys = refl
run-append gop s (x ∷ xs) ys =
    let ih = run-append gop (apply gop s x).0 xs ys in
    rw ih (
      ap (λ l. ((run gop (run gop (apply gop s x).0 xs).0 ys).0, l))
        (sym (
          append_assoc (apply gop s x).1 (run gop (apply gop s x).0 xs).1
            (run gop (run gop (apply gop s x).0 xs).0 ys).1)))

-- The observer does not call the source itself.
unfoldable pub IsSilent : ℕ → Step → Type 0
IsSilent o (registered p) = (p == o) ≡ false
IsSilent o (deregistered p) = (p == o) ≡ false
IsSilent o joined = Unit
IsSilent o (generated pkt) = Unit

unfoldable pub is_joined : Step → Bool
is_joined joined = true
is_joined (registered p) = false
is_joined (deregistered p) = false
is_joined (generated pkt) = false
