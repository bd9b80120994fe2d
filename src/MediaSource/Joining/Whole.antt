-- ===== src/MediaSource/Joining/Whole.antt =====
-- What an observer receives from the time it registers on.
use webrtc_stream_server.Prelude.{
  ℕ, ◌≡◌, refl, sym, ap, ◌∙◌, true, false, List, [], ◌∷◌, ◌++◌, append-nil, All, inl, inr,
  Bool-cases,
}
use webrtc_stream_server.MediaPacket.{MediaPacket}
use webrtc_stream_server.GopCache.{add_packets}
use webrtc_stream_server.GopCache.LastGop.{is_video_key, has_key, last_gop, add_packets-eq}
use webrtc_stream_server.MediaSource.Joining.Counts.{
  times, received, repeat, received-append, received-map, received-join_all, times-push_new,
  times-push_new_ne, times-erase_ne, times-join_all,
}
use webrtc_stream_server.MediaSource.Joining.Settled.{Stands, each_one, each_zero, settled}
use webrtc_stream_server.MediaSource.Joining.{
  Step, registered, deregistered, joined, generated, apply, run, packets, IsSilent, is_joined,
  run-append,
}
use webrtc_stream_server.MediaSource.Observers.{
  Observers, create, check_new_observer, register_observer, deregister_observer, deliver,
}

gop_cache-run :
    (s : Observers) (steps : List Step)
    → (run true s steps).0.gop_cache ≡ add_packets s.gop_cache (packets steps)
unfolding run packets add_packets apply register_observer deregister_observer check_new_observer
    deliver
gop_cache-run s [] = refl
gop_cache-run s (registered p ∷ steps) = gop_cache-run (apply true s (registered p)).0 steps
gop_cache-run s (deregistered p ∷ steps) = gop_cache-run (apply true s (deregistered p)).0 steps
gop_cache-run s (joined ∷ steps) = gop_cache-run (apply true s joined).0 steps
gop_cache-run s (generated pkt ∷ steps) = gop_cache-run (apply true s (generated pkt)).0 steps

last_gop_none : (pkts : List MediaPacket) → has_key pkts ≡ false → last_gop pkts ≡ pkts
unfolding has_key last_gop
last_gop_none [] h = refl
last_gop_none (pkt ∷ pkts) h = elim (Bool-cases (is_video_key pkt)) [
  | inl key ↦ absurd (let f : true ≡ false = rw key at h in cc)
  | inr plain ↦ rw (rw plain at h) refl
]

cached_gop : (pkts : List MediaPacket) → add_packets create.gop_cache pkts ≡ last_gop pkts
unfolding create
cached_gop pkts = add_packets-eq [] pkts ∙ elim (Bool-cases (has_key pkts)) [
  | inl key ↦ rw key refl
  | inr none ↦ rw none (sym (last_gop_none pkts none))
]

packets-append : (xs ys : List Step) → packets (xs ++ ys) ≡ packets xs ++ packets ys
unfolding packets
packets-append [] ys = refl
packets-append (registered p ∷ xs) ys = packets-append xs ys
packets-append (deregistered p ∷ xs) ys = packets-append xs ys
packets-append (joined ∷ xs) ys = packets-append xs ys
packets-append (generated pkt ∷ xs) ys = ap (λ l. pkt ∷ l) (packets-append xs ys)

-- While it waits, an observer receives nothing.
waits :
    (o : ℕ) (s : Observers) (steps : List Step)
    → All (IsSilent o) steps
    → All (λ step. is_joined step ≡ false) steps
    → Stands o s 0 1
    → Stands o (run true s steps).0 0 1 × (received o (run true s steps).1 ≡ [])
unfolding run apply IsSilent register_observer deregister_observer check_new_observer deliver
    received is_joined
waits o s [] u v h = (h, refl)
waits o s (registered p ∷ steps) (ne, silent) (v, apart) (ha, hb) =
    waits o (apply true s (registered p)).0 steps silent apart
      (ha, times-push_new_ne o p s.new_observers ne ∙ hb)
waits o s (deregistered p ∷ steps) (ne, silent) (v, apart) (ha, hb) =
    waits o (apply true s (deregistered p)).0 steps silent apart
      (times-erase_ne o p s.observers ne ∙ ha, times-erase_ne o p s.new_observers ne ∙ hb)
waits o s (joined ∷ steps) h (v, apart) k = absurd (let f : true ≡ false = v in cc)
waits o s (generated pkt ∷ steps) (u, silent) (v, apart) (ha, hb) =
    let (stands, got) = waits o (apply true s (generated pkt)).0 steps silent apart (ha, hb) in
    (
      stands,
      received-append o (deliver true s pkt).1 (run true (deliver true s pkt).0 steps).1
          ∙ rw (received-map o pkt s.observers, ha, got) (unfold repeat in refl),
    )

-- Up to the round that finds it, the observer has received nothing, and it waits.
before_joining :
    (o : ℕ) (earlier waiting : List Step)
    → All (IsSilent o) earlier
    → All (IsSilent o) waiting
    → All (λ step. is_joined step ≡ false) waiting
    → Stands o (run true create (earlier ++ (registered o ∷ waiting))).0 0 1
      × (received o (run true create (earlier ++ (registered o ∷ waiting))).1 ≡ [])
before_joining o earlier waiting silent silent' apart =
    let s = (run true create earlier).0 in
    let (stands, none) = settled o create 0 earlier silent (unfold create times in (refl, refl)) in
    let (ha, hb) = stands in
    let there : Stands o (register_observer true s o) 0 1 =
      unfold register_observer in (ha, times-push_new o s.new_observers hb) in
    let (waits', none') = waits o (register_observer true s o) waiting silent' apart there in
    rw (run-append true create earlier (registered o ∷ waiting)) (
      (unfold run apply in waits'),
      received-append o (run true create earlier).1 (run true s (registered o ∷ waiting)).1
          ∙ rw (none ∙ each_zero (packets earlier)) (unfold run apply in none'),
    )

-- With the cache on, for every interleaving of the locked regions: an observer that registers once, and
-- does not call the source otherwise, receives in all what the cache held when the work thread next
-- looked for new observers, which is the packets from the last video key frame on, or all if there was
-- none, and then each later packet: none twice, none left out.
pub received-run :
    (o : ℕ) (earlier waiting after : List Step)
    → All (IsSilent o) earlier
    → All (IsSilent o) waiting
    → All (λ step. is_joined step ≡ false) waiting
    → All (IsSilent o) after
    → received o (run true create ((earlier ++ (registered o ∷ waiting)) ++ (joined ∷ after))).1
      ≡ last_gop (packets earlier ++ packets waiting) ++ packets after
received-run o earlier waiting after silent silent' apart silent'' =
    let before = earlier ++ (registered o ∷ waiting) in
    let s = (run true create before).0 in
    let s' = (check_new_observer s).0 in
    let (stands, nothing) = before_joining o earlier waiting silent silent' apart in
    let (ha, hb) = stands in
    let there : Stands o s' 1 0 =
      unfold check_new_observer times in
      (times-join_all o s.observers s.gop_cache s.new_observers ha hb, refl) in
    let (_, later) = settled o s' 1 after silent'' there in
    let got : received o (check_new_observer s).1 ≡ s.gop_cache =
      unfold check_new_observer in
      (received-join_all o s.observers s.gop_cache s.new_observers
        ∙ rw hb (unfold repeat in append-nil s.gop_cache)) in
    let cached : s.gop_cache ≡ last_gop (packets earlier ++ packets waiting) =
      gop_cache-run create before
      ∙ cached_gop (packets before)
      ∙ ap last_gop (packets-append earlier (registered o ∷ waiting) ∙ (unfold packets in refl)) in
    rw (run-append true create before (joined ∷ after)) (
      received-append o (run true create before).1 (run true s (joined ∷ after)).1
      ∙ rw nothing (
          unfold run apply in
          received-append o (check_new_observer s).1 (run true s' after).1
          ∙ rw (got ∙ cached, later ∙ each_one (packets after)) refl))
