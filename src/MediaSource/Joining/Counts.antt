-- ===== src/MediaSource/Joining/Counts.antt =====
-- How often an observer stands in a list, and what it receives of some calls.
use webrtc_stream_server.Prelude.{
  ℕ, zero, suc, ◌+◌, ◌≡◌, refl, ap, ◌∙◌, true, false, List, [], ◌∷◌, ◌++◌, map, if◌then◌else◌, ◌==◌,
  arith, inl, inr, Bool-cases, ==_iff,
}
use webrtc_stream_server.MediaPacket.{MediaPacket}
use webrtc_stream_server.MediaSource.Observers.{
  Call, media_packet_generated, media_source_end, find, push_new, erase, send_all, join_all,
}

unfoldable pub times : ℕ → List ℕ → ℕ
times observer [] = 0
times observer (o ∷ os) = let rest = times observer os in if o == observer then suc rest else rest

unfoldable pub received : ℕ → List Call → List MediaPacket
received observer [] = []
received observer (media_source_end o ∷ calls) = received observer calls
received observer (media_packet_generated o pkt ∷ calls) =
    let rest = received observer calls in if o == observer then pkt ∷ rest else rest

unfoldable pub repeat : ℕ → List MediaPacket → List MediaPacket
repeat zero pkts = []
repeat (suc n) pkts = pkts ++ repeat n pkts

pub received-append :
    (o : ℕ) (xs ys : List Call) → received o (xs ++ ys) ≡ received o xs ++ received o ys
unfolding received
received-append o [] ys = refl
received-append o (media_source_end p ∷ xs) ys = received-append o xs ys
received-append o (media_packet_generated p pkt ∷ xs) ys = elim (Bool-cases (p == o)) [
  | inl same ↦ rw same (ap (λ l. pkt ∷ l) (received-append o xs ys))
  | inr other ↦ rw other (received-append o xs ys)
]

pub times-append : (o : ℕ) (xs ys : List ℕ) → times o (xs ++ ys) ≡ times o xs + times o ys
unfolding times
times-append o [] ys = omega arith
times-append o (x ∷ xs) ys = ground (arith, times-append o xs ys)

pub find-times : (o : ℕ) (xs : List ℕ) → find o xs ≡ true → (n : ℕ) × (times o xs ≡ suc n)
unfolding find times
find-times o [] h = absurd (let f : false ≡ true = h in cc)
find-times o (x ∷ xs) h = elim (Bool-cases (x == o)) [
  | inl same ↦ (times o xs, rw same refl)
  | inr other ↦ let (n, e) = find-times o xs (rw other at h) in (n, rw other e)
]

pub find-times_none : (o : ℕ) (xs : List ℕ) → find o xs ≡ false → times o xs ≡ 0
unfolding find times
find-times_none o [] h = refl
find-times_none o (x ∷ xs) h = elim (Bool-cases (x == o)) [
  | inl same ↦ absurd (let f : true ≡ false = rw same at h in cc)
  | inr other ↦ rw other (find-times_none o xs (rw other at h))
]

-- An observer that is put in the list stands there once.
pub times-push_new : (o : ℕ) (xs : List ℕ) → times o xs ≡ 0 → times o (push_new xs o) ≡ 1
unfolding push_new times
times-push_new o xs h = elim (Bool-cases (find o xs)) [
  | inl there ↦ let (n, e) = find-times o xs there in absurd (omega arith)
  | inr absent ↦ rw absent (ground (arith, times-append o xs (o ∷ [])))
]

pub times-push_new_ne :
    (o p : ℕ) (xs : List ℕ) → (p == o) ≡ false → times o (push_new xs p) ≡ times o xs
unfolding push_new times
times-push_new_ne o p xs ne = elim (Bool-cases (find p xs)) [
  | inl there ↦ rw there refl
  | inr absent ↦ rw absent (times-append o xs (p ∷ []) ∙ rw ne (omega arith))
]

pub times-erase_ne : (o p : ℕ) (xs : List ℕ) → (p == o) ≡ false → times o (erase p xs) ≡ times o xs
unfolding erase times
times-erase_ne o p [] ne = refl
times-erase_ne o p (x ∷ xs) ne = elim (Bool-cases (x == p)) [
  | inl same ↦ rw same (ground arith)
  | inr other ↦ rw other (ground (arith, times-erase_ne o p xs ne))
]

pub received-map :
    (o : ℕ) (pkt : MediaPacket) (xs : List ℕ)
    → received o (map (λ x. media_packet_generated x pkt) xs) ≡ repeat (times o xs) (pkt ∷ [])
unfolding received times repeat
received-map o pkt [] = refl
received-map o pkt (x ∷ xs) = elim (Bool-cases (x == o)) [
  | inl same ↦ rw same (ap (λ l. pkt ∷ l) (received-map o pkt xs))
  | inr other ↦ rw other (received-map o pkt xs)
]

received-send_all :
    (o p : ℕ) (pkts : List MediaPacket)
    → received o (send_all p pkts) ≡ (if p == o then pkts else [])
unfolding received send_all
received-send_all o p [] = elim (Bool-cases (p == o)) [ inl e ↦ rw e refl | inr e ↦ rw e refl ]
received-send_all o p (pkt ∷ pkts) = elim (Bool-cases (p == o)) [
  | inl same ↦ rw same (ap (λ l. pkt ∷ l) (received-send_all o p pkts ∙ rw same refl))
  | inr other ↦ rw other (received-send_all o p pkts ∙ rw other refl)
]

-- Each that waits receives what is cached.
pub received-join_all :
    (o : ℕ) (xs : List ℕ) (cached : List MediaPacket) (waiting : List ℕ)
    → received o (join_all xs cached waiting).1 ≡ repeat (times o waiting) cached
unfolding join_all received times repeat
received-join_all o xs cached [] = refl
received-join_all o xs cached (w ∷ ws) =
    let apart = received-append o (send_all w cached) (join_all (push_new xs w) cached ws).1 in
    let first = received-send_all o w cached in
    let later = received-join_all o (push_new xs w) cached ws in
    elim (Bool-cases (w == o)) [
      | inl same ↦ rw same (apart ∙ rw (first, later, same) refl)
      | inr other ↦ rw other (apart ∙ rw (first, later, other) refl)
    ]

-- Those that do not wait stay as they are.
pub times-join_all_none :
    (o : ℕ) (xs : List ℕ) (cached : List MediaPacket) (waiting : List ℕ)
    → times o waiting ≡ 0
    → times o (join_all xs cached waiting).0 ≡ times o xs
unfolding join_all times
times-join_all_none o xs cached [] h = refl
times-join_all_none o xs cached (w ∷ ws) h = elim (Bool-cases (w == o)) [
  | inl same ↦ absurd (ground arith)
  | inr other ↦
      let k : times o ws ≡ 0 = ground arith in
      times-join_all_none o (push_new xs w) cached ws k ∙ times-push_new_ne o w xs other
]

-- One that waits alone comes in once.
pub times-join_all :
    (o : ℕ) (xs : List ℕ) (cached : List MediaPacket) (waiting : List ℕ)
    → times o xs ≡ 0
    → times o waiting ≡ 1
    → times o (join_all xs cached waiting).0 ≡ 1
unfolding join_all times
times-join_all o xs cached [] none one = absurd (omega arith)
times-join_all o xs cached (w ∷ ws) none one = elim (Bool-cases (w == o)) [
  | inl same ↦
      let k : times o ws ≡ 0 = ground arith in
      times-join_all_none o (push_new xs w) cached ws k
      ∙ (let (to, from) = ==_iff w o in rw (to same) (times-push_new o xs none))
  | inr other ↦
      let k : times o ws ≡ 1 = ground arith in
      times-join_all o (push_new xs w) cached ws (times-push_new_ne o w xs other ∙ none) k
]
