-- ===== src/MediaSource/Joining/Settled.antt =====
-- An observer that does not wait receives each packet as often as it stands among the observers.
use webrtc_stream_server.Prelude.{
  ℕ, ◌≡◌, refl, sym, ap, ap₂, ◌∙◌, true, List, [], ◌∷◌, ◌++◌, append-nil, All,
}
use webrtc_stream_server.MediaPacket.{MediaPacket}
use webrtc_stream_server.MediaSource.Joining.Counts.{
  times, received, repeat, received-append, received-map, received-join_all, times-push_new_ne,
  times-erase_ne, times-join_all_none,
}
use webrtc_stream_server.MediaSource.Joining.{
  Step, registered, deregistered, joined, generated, apply, run, packets, IsSilent,
}
use webrtc_stream_server.MediaSource.Observers.{
  Observers, check_new_observer, register_observer, deregister_observer, deliver,
}

-- How often the observer stands among those that receive, and among those that wait.
abbrev pub Stands : ℕ → Observers → ℕ → ℕ → Type 0
Stands o s a b = (times o s.observers ≡ a) × (times o s.new_observers ≡ b)

unfoldable pub each : ℕ → List MediaPacket → List MediaPacket
each a [] = []
each a (pkt ∷ pkts) = repeat a (pkt ∷ []) ++ each a pkts

pub each_one : (pkts : List MediaPacket) → each 1 pkts ≡ pkts
unfolding each repeat
each_one [] = refl
each_one (pkt ∷ pkts) = ap (λ l. pkt ∷ l) (each_one pkts)

pub each_zero : (pkts : List MediaPacket) → each 0 pkts ≡ []
unfolding each repeat
each_zero [] = refl
each_zero (pkt ∷ pkts) = each_zero pkts

-- An observer that does not wait stays where it is.
Stands-apply :
    (o : ℕ) (s : Observers) (a : ℕ) (step : Step)
    → IsSilent o step
    → Stands o s a 0
    → Stands o (apply true s step).0 a 0
unfolding apply IsSilent register_observer deregister_observer check_new_observer deliver times
Stands-apply o s a (registered p) ne (ha, hb) = (ha, times-push_new_ne o p s.new_observers ne ∙ hb)
Stands-apply o s a (deregistered p) ne (ha, hb) =
    (times-erase_ne o p s.observers ne ∙ ha, times-erase_ne o p s.new_observers ne ∙ hb)
Stands-apply o s a joined u (ha, hb) =
    (times-join_all_none o s.observers s.gop_cache s.new_observers hb ∙ ha, refl)
Stands-apply o s a (generated pkt) u h = h

received-apply :
    (o : ℕ) (s : Observers) (a : ℕ) (step : Step)
    → IsSilent o step
    → Stands o s a 0
    → received o (apply true s step).1 ≡ each a (packets (step ∷ []))
unfolding apply check_new_observer deliver received packets each repeat
received-apply o s a (registered p) ne h = refl
received-apply o s a (deregistered p) ne h = refl
received-apply o s a joined u (ha, hb) =
    received-join_all o s.observers s.gop_cache s.new_observers ∙ rw hb refl
received-apply o s a (generated pkt) u (ha, hb) =
    received-map o pkt s.observers ∙ rw ha (sym (append-nil (repeat a (pkt ∷ []))))

each-packets :
    (a : ℕ) (step : Step) (steps : List Step)
    → each a (packets (step ∷ [])) ++ each a (packets steps) ≡ each a (packets (step ∷ steps))
unfolding packets each
each-packets a (registered p) steps = refl
each-packets a (deregistered p) steps = refl
each-packets a joined steps = refl
each-packets a (generated pkt) steps =
    ap (λ l. l ++ each a (packets steps)) (append-nil (repeat a (pkt ∷ [])))

pub settled :
    (o : ℕ) (s : Observers) (a : ℕ) (steps : List Step)
    → All (IsSilent o) steps
    → Stands o s a 0
    → Stands o (run true s steps).0 a 0 × (received o (run true s steps).1 ≡ each a (packets steps))
unfolding run
settled o s a [] u h = (h, (unfold received packets each in refl))
settled o s a (step ∷ steps) (silent, later) h =
    let (stands, got) =
      settled o (apply true s step).0 a steps later (Stands-apply o s a step silent h) in
    (
      stands,
      received-append o (apply true s step).1 (run true (apply true s step).0 steps).1
          ∙ ap₂ (λ x y. x ++ y) (received-apply o s a step silent h) got
          ∙ each-packets a step steps,
    )
