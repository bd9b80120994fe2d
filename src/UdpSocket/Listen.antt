-- ===== src/UdpSocket/Listen.antt =====
-- Which port `Listen` takes.
use webrtc_stream_server.Prelude.{
  ℕ, zero, suc, ◌+◌, ◌-◌, ◌≤◌, ◌<◌, ◌≡◌, refl, ap, ap₂, ◌∙◌, Bool, true, false, arith,
  if◌then◌else◌, u16, leb,
}
use webrtc_stream_server.UdpSocket.{Search, bound, unavailable, running, listen_loop}

-- The first of the `n` ports from `i` on that can be bound.
unfoldable pub first_free : (ℕ → Bool) → ℕ → ℕ → Search
first_free bind_port i zero = unavailable
first_free bind_port i (suc n) = if bind_port i then bound i else first_free bind_port (suc i) n

listen_loop-from :
    (bind_port : ℕ → Bool) (n more i max_port : ℕ)
    → i + n ≡ max_port + 1
    → max_port < 65535
    → listen_loop bind_port (suc (n + more)) i max_port ≡ first_free bind_port i n
unfolding listen_loop first_free
listen_loop-from bind_port zero more i max_port e h =
    let outside : leb i max_port ≡ false = ground arith in rw outside refl
listen_loop-from bind_port (suc n) more i max_port e h =
    let inside : leb i max_port ≡ true = ground arith in
    let next : u16 (i + 1) ≡ suc i = omega arith in
    let rounds : suc n + more ≡ suc (n + more) = omega arith in
    let rest = listen_loop-from bind_port n more (suc i) max_port (omega arith) h in
    let same : listen_loop bind_port (suc n + more) (u16 (i + 1)) max_port
        ≡ first_free bind_port (suc i) n =
      ap₂ (λ fuel j. listen_loop bind_port fuel j max_port) rounds next ∙ rest in
    rw (inside, same) refl

-- Over a range of ports that ends below 65535 the loop ends, given one round more than there are
-- ports, and takes the first port that can be bound; it reports that there is none if no port can.
pub listen_loop-first_free :
    (bind_port : ℕ → Bool) (min_port max_port more : ℕ)
    → min_port ≤ max_port
    → max_port < 65535
    → listen_loop bind_port (max_port - min_port + 2 + more) min_port max_port
      ≡ first_free bind_port min_port (max_port - min_port + 1)
listen_loop-first_free bind_port min_port max_port more le h =
    ap (λ fuel. listen_loop bind_port fuel min_port max_port)
      (let e : max_port - min_port + 2 + more ≡ suc (max_port - min_port + 1 + more) =
          omega arith in
        e)
    ∙ listen_loop-from bind_port (max_port - min_port + 1) more min_port max_port (omega arith) h

-- Up to port 65535 the loop goes on for ever when no port can be bound: the counter wraps to 0.
pub listen_loop-running :
    (bind_port : ℕ → Bool) (fuel i : ℕ)
    → ((port : ℕ) → bind_port port ≡ false)
    → i < 65536
    → listen_loop bind_port fuel i 65535 ≡ running
unfolding listen_loop
listen_loop-running bind_port zero i none lt = refl
listen_loop-running bind_port (suc fuel) i none lt =
    let inside : leb i 65535 ≡ true = ground arith in
    rw (inside, none i) (listen_loop-running bind_port fuel (u16 (i + 1)) none (omega arith))
