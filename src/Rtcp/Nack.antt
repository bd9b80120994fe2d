-- ===== src/Rtcp/Nack.antt =====
-- The sequence numbers that `NackPacket::Parse` takes from an item, against RFC 4585, section 6.2.1.
use webrtc_stream_server.Prelude.{
  ℕ, zero, suc, ◌+◌, ◌/◌, ◌%◌, ◌^◌, ◌<◌, ◌≡◌, refl, sym, subst, ap, ap₂, ◌∙◌, List, [], ◌∷◌, arith,
  u16, ◌==◌, if◌then◌else◌, true, some, inl, inr, Bool-cases, ==_iff,
}
use native.Mathlib.Nat.{pow-suc, div-div-eq-div-mul}
use native.Mathlib.Numerals.{add-one}
use webrtc_stream_server.Rtcp.{lost_bits, push_lost, or_empty, lost_of_mask}

-- Bit `k` of the mask, counted from the lowest, stands for the packet `pid + 1 + k`; the `n` bits
-- from `k` on.
unfoldable pub masked_packets : ℕ → ℕ → ℕ → ℕ → List ℕ
masked_packets pid blp k zero = []
masked_packets pid blp k (suc n) =
    let rest = masked_packets pid blp (k + 1) n in
    if blp / 2 ^ k % 2 == 1 then u16 (pid + 1 + k) ∷ rest else rest

shift_once : (b k : ℕ) → b / 2 ^ (k + 1) ≡ b / 2 ^ k / 2
shift_once b k =
    ap (λ e. b / e) (ap (λ m. 2 ^ m) (add-one k) ∙ pow-suc 2 k)
    ∙ sym (div-div-eq-div-mul b (2 ^ k) 2)

masked_packets_none : (pid blp k n : ℕ) → blp / 2 ^ k ≡ 0 → masked_packets pid blp k n ≡ []
unfolding masked_packets
masked_packets_none pid blp k zero h = refl
masked_packets_none pid blp k (suc n) h =
    ground (arith, shift_once blp k, masked_packets_none pid blp (k + 1) n)

lost_bits-masked_packets :
    (pid blp k n : ℕ)
    → blp / 2 ^ (k + n) ≡ 0
    → lost_bits (suc n) (blp / 2 ^ k) (u16 (pid + 1 + k)) ≡ some (masked_packets pid blp k n)
unfolding lost_bits masked_packets
lost_bits-masked_packets pid blp k zero h =
    let done : blp / 2 ^ k ≡ 0 =
      subst (λ j. blp / 2 ^ j ≡ 0) (let e : k + 0 ≡ k = omega arith in e) h in
    let test : (blp / 2 ^ k == 0) ≡ true = (==_iff _ _).1 done in rw test refl
lost_bits-masked_packets pid blp k (suc n) h =
    let next : u16 (u16 (pid + 1 + k) + 1) ≡ u16 (pid + 1 + (k + 1)) = omega arith in
    let rest : lost_bits (suc n) (blp / 2 ^ k / 2) (u16 (u16 (pid + 1 + k) + 1))
        ≡ some (masked_packets pid blp (k + 1) n) =
      ap₂ (lost_bits (suc n)) (sym (shift_once blp k)) next
      ∙ lost_bits-masked_packets pid blp (k + 1) n
          (subst (λ j. blp / 2 ^ j ≡ 0) (let e : k + suc n ≡ k + 1 + n = omega arith in e) h) in
    elim (Bool-cases (blp / 2 ^ k == 0)) [
      | inl over ↦
          let gone = (==_iff (blp / 2 ^ k) 0).0 over in
          rw over (ap some (sym (masked_packets_none pid blp k (suc n) gone)))
      | inr more ↦ elim (Bool-cases (blp / 2 ^ k % 2 == 1)) [
        | inl on ↦ rw (more, on, rest) (unfold push_lost in refl)
        | inr off ↦ rw (more, off) rest
      ]
    ]

gone_above : (blp k m : ℕ) → blp / 2 ^ k ≡ 0 → blp / 2 ^ (0 + (k + m)) ≡ 0
gone_above blp k zero h = ap (λ j. blp / 2 ^ j) (let e : 0 + (k + 0) ≡ k = omega arith in e) ∙ h
gone_above blp k (suc m) h =
    let rest = gone_above blp k m h in
    ap (λ j. blp / 2 ^ j) (let e : 0 + (k + suc m) ≡ 0 + (k + m) + 1 = omega arith in e)
    ∙ shift_once blp (0 + (k + m))
    ∙ ap (λ b. b / 2) rest

masked_step :
    (pid blp k n n' : ℕ)
    → masked_packets pid blp (k + 1) n ≡ masked_packets pid blp (k + 1) n'
    → masked_packets pid blp k (suc n) ≡ masked_packets pid blp k (suc n')
unfolding masked_packets
masked_step pid blp k n n' e = rw e

-- The bits above a mask of `k + n` bits add nothing.
masked_packets-add :
    (pid blp k n m : ℕ)
    → blp / 2 ^ (k + n) ≡ 0
    → masked_packets pid blp k (n + m) ≡ masked_packets pid blp k n
masked_packets-add pid blp k zero m h =
    let first : blp / 2 ^ k ≡ 0 =
      subst (λ j. blp / 2 ^ j ≡ 0) (let e : k + 0 ≡ k = omega arith in e) h in
    masked_packets_none pid blp k (0 + m) first ∙ sym (masked_packets_none pid blp k 0 first)
masked_packets-add pid blp k (suc n) m h =
    let rest =
      masked_packets-add pid blp (k + 1) n m
        (subst (λ j. blp / 2 ^ j ≡ 0) (let e : k + suc n ≡ k + 1 + n = omega arith in e) h) in
    ap (masked_packets pid blp k) (let e : suc n + m ≡ suc (n + m) = omega arith in e)
    ∙ masked_step pid blp k (n + m) n rest

-- However many tests from 17 on the loop over a 16-bit mask is given, it ends by its own test, and it
-- has then collected the packet `pid + 1 + k` modulo 2^16 for each bit `k` that is set, in order.
pub lost_bits-eq :
    (pid blp more : ℕ)
    → blp < 2 ^ 16
    → lost_bits (17 + more) blp (u16 (pid + 1)) ≡ some (masked_packets pid blp 0 16)
lost_bits-eq pid blp more h =
    let none_left : blp / 2 ^ 16 ≡ 0 = omega arith in
    let gone : blp / 2 ^ (0 + (16 + more)) ≡ 0 = gone_above blp 16 more none_left in
    ap (λ n. lost_bits n blp (u16 (pid + 1)))
      (let e : 17 + more ≡ suc (16 + more) = omega arith in e)
    ∙ ap₂ (lost_bits (suc (16 + more))) (let e : blp ≡ blp / 2 ^ 0 = omega arith in e)
        (let e : u16 (pid + 1) ≡ u16 (pid + 1 + 0) = omega arith in e)
    ∙ lost_bits-masked_packets pid blp 0 (16 + more) gone
    ∙ ap some (masked_packets-add pid blp 0 16 more none_left)

pub lost_of_mask-masked_packets :
    (pid blp : ℕ) → blp < 2 ^ 16 → lost_of_mask blp (u16 (pid + 1)) ≡ masked_packets pid blp 0 16
unfolding lost_of_mask or_empty
lost_of_mask-masked_packets pid blp h = ap or_empty (
    ap (λ n. lost_bits n blp (u16 (pid + 1))) (let e : 17 ≡ 17 + 0 = omega arith in e)
    ∙ lost_bits-eq pid blp 0 h)
