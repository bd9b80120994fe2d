-- ===== src/UdpSocket/Queue.antt =====
-- The messages reach the network in the order in which they were given, one at a time.
use webrtc_stream_server.Prelude.{
  ℕ, ◌≤◌, ◌≡◌, refl, sym, ap, ◌∙◌, Bool, true, false, List, [], ◌∷◌, ◌++◌, append_assoc, append-nil,
  arith, leb, length, drop, ◌==◌, length-append, inl, inr, Bool-cases,
}
use webrtc_stream_server.UdpSocket.{
  UdpMessage, UdpSocket, create, do_send, send_data, hand_send, close,
}

-- The sockets that calls and completions lead to, with the messages given to `send_data` so far, and
-- those handed to the network. A send completes only when one is outstanding.
pub data Reachable : UdpSocket → List UdpMessage → List UdpMessage → Type 0 where
  created : Reachable create [] []
  sent :
      (s : UdpSocket) (given handed : List UdpMessage) (message : UdpMessage)
      → Reachable s given handed
      → Reachable
          (send_data s message).0
          (given ++ (message ∷ []))
          (handed ++ (send_data s message).1)
  completed :
      (s : UdpSocket) (given handed : List UdpMessage) (failed : Bool)
      → 1 ≤ s.outstanding
      → Reachable s given handed
      → Reachable (hand_send s failed).0 given (handed ++ (hand_send s failed).1.0)
  closed :
      (s : UdpSocket) (given handed : List UdpMessage)
      → Reachable s given handed
      → Reachable (close s) given handed

abbrev pub pending : List UdpMessage → ℕ
pending [] = 0
pending (message ∷ messages) = 1

-- At most one send is outstanding, and what was handed over is a prefix of what was given; while the
-- socket is open, what is left is the queue behind its head, and the head is the outstanding send.
pub record InOrder (s : UdpSocket) (given handed : List UdpMessage) : Type 0 where
  pub left_over : List UdpMessage
  pub prefix : given ≡ handed ++ left_over
  pub single : s.outstanding ≤ 1
  pub queued : s.is_closing ≡ false → left_over ≡ drop 1 s.send_queue
  pub head_sent : s.is_closing ≡ false → s.outstanding ≡ pending s.send_queue

longer :
    (given handed left_over : List UdpMessage) (message : UdpMessage)
    → given ≡ handed ++ left_over
    → given ++ (message ∷ []) ≡ (handed ++ []) ++ (left_over ++ (message ∷ []))
longer given handed left_over message e =
    ap (λ l. l ++ (message ∷ [])) e
    ∙ append_assoc handed left_over (message ∷ [])
    ∙ ap (λ l. l ++ (left_over ++ (message ∷ []))) (sym (append-nil handed))

socket : Bool → List UdpMessage → ℕ → UdpSocket
socket closing queue outstanding = record {
  is_closing = closing;
  send_queue = queue;
  outstanding = outstanding;
}

send_data-closing :
    (queue : List UdpMessage) (outstanding : ℕ) (message : UdpMessage)
    → send_data (socket true queue outstanding) message
      ≡ (socket true (queue ++ (message ∷ [])) outstanding, [])
unfolding send_data do_send socket
send_data-closing queue outstanding message =
    elim (Bool-cases (length (queue ++ (message ∷ [])) == 1)) [
      | inl e ↦ rw e refl
      | inr e ↦ rw e refl
    ]

send_data-more :
    (first : UdpMessage) (queue : List UdpMessage) (outstanding : ℕ) (message : UdpMessage)
    → send_data (socket false (first ∷ queue) outstanding) message
      ≡ (socket false (first ∷ (queue ++ (message ∷ []))) outstanding, [])
unfolding send_data do_send socket
send_data-more first queue outstanding message =
    let l = length-append queue (message ∷ []) in
    let longer : (length (first ∷ (queue ++ (message ∷ []))) == 1) ≡ false = ground arith in
    rw longer refl

send_data-InOrder :
    (closing : Bool) (queue : List UdpMessage) (outstanding : ℕ) (given handed : List UdpMessage)
    (message : UdpMessage)
    → InOrder (socket closing queue outstanding) given handed
    → InOrder
        (send_data (socket closing queue outstanding) message).0
        (given ++ (message ∷ []))
        (handed ++ (send_data (socket closing queue outstanding) message).1)
unfolding socket send_data do_send
send_data-InOrder true queue outstanding given handed message v =
    rw (send_data-closing queue outstanding message) (record {
      left_over = v.left_over ++ (message ∷ []);
      prefix = longer given handed v.left_over message v.prefix;
      single = v.single;
      queued = λ e. absurd (let f : true ≡ false = e in cc);
      head_sent = λ e. cc;
    })
send_data-InOrder false [] outstanding given handed message v =
    let idle : outstanding ≡ 0 = v.head_sent refl in
    record {
      left_over = [];
      prefix =
          ap (λ l. l ++ (message ∷ []))
            (v.prefix ∙ ap (λ l. handed ++ l) (v.queued refl) ∙ append-nil handed)
          ∙ sym (append-nil (handed ++ (message ∷ [])));
      single = omega arith;
      queued = λ e. refl;
      head_sent = λ e. omega arith;
    }
send_data-InOrder false (first ∷ queue) outstanding given handed message v =
    rw (send_data-more first queue outstanding message) (record {
      left_over = v.left_over ++ (message ∷ []);
      prefix = longer given handed v.left_over message v.prefix;
      single = v.single;
      queued = λ e. ap (λ l. l ++ (message ∷ [])) (v.queued refl);
      head_sent = λ e. v.head_sent refl;
    })

hand_send-InOrder :
    (closing : Bool) (queue : List UdpMessage) (outstanding : ℕ) (given handed : List UdpMessage)
    (failed : Bool)
    → 1 ≤ outstanding
    → InOrder (socket closing queue outstanding) given handed
    → InOrder
        (hand_send (socket closing queue outstanding) failed).0
        given
        (handed ++ (hand_send (socket closing queue outstanding) failed).1.0)
unfolding socket hand_send do_send
hand_send-InOrder true queue outstanding given handed failed h v =
    let single = v.single in
    record {
      left_over = v.left_over;
      prefix = v.prefix ∙ ap (λ l. l ++ v.left_over) (sym (append-nil handed));
      single = omega arith;
      queued = λ e. v.queued e;
      head_sent = λ e. absurd (let f : true ≡ false = e in cc);
    }
hand_send-InOrder false [] outstanding given handed failed h v =
    let idle : outstanding ≡ 0 = v.head_sent refl in absurd (omega arith)
hand_send-InOrder false (first ∷ []) outstanding given handed failed h v =
    let one : outstanding ≡ 1 = v.head_sent refl in
    record {
      left_over = [];
      prefix =
          v.prefix
          ∙ ap (λ l. handed ++ l) (v.queued refl)
          ∙ ap (λ l. l ++ []) (sym (append-nil handed));
      single = omega arith;
      queued = λ e. refl;
      head_sent = λ e. omega arith;
    }
hand_send-InOrder false (first ∷ (next ∷ queue)) outstanding given handed failed h v =
    let one : outstanding ≡ 1 = v.head_sent refl in
    let more : leb 1 (length (next ∷ queue)) ≡ true = ground arith in
    rw more (record {
      left_over = queue;
      prefix =
          v.prefix
          ∙ ap (λ l. handed ++ l) (v.queued refl)
          ∙ sym (append_assoc handed (next ∷ []) queue);
      single = omega arith;
      queued = λ e. refl;
      head_sent = λ e. omega arith;
    })

Reachable-InOrder :
    (s : UdpSocket) (given handed : List UdpMessage)
    → Reachable s given handed
    → InOrder s given handed
unfolding create close socket
Reachable-InOrder _ _ _ created = record {
  left_over = [];
  prefix = refl;
  single = omega arith;
  queued = λ e. refl;
  head_sent = λ e. refl;
}
Reachable-InOrder _ _ _ (sent s given handed message r) =
    send_data-InOrder s.is_closing s.send_queue s.outstanding given handed message
      (Reachable-InOrder s given handed r)
Reachable-InOrder _ _ _ (completed s given handed failed h r) =
    hand_send-InOrder s.is_closing s.send_queue s.outstanding given handed failed h
      (Reachable-InOrder s given handed r)
Reachable-InOrder _ _ _ (closed s given handed r) =
    let v = Reachable-InOrder s given handed r in
    record {
      left_over = v.left_over;
      prefix = v.prefix;
      single = v.single;
      queued = λ e. absurd (let f : true ≡ false = e in cc);
      head_sent = λ e. absurd (let f : true ≡ false = e in cc);
    }

-- Whatever the order of calls, completions and the closing, the messages handed to the network are
-- an initial part of those given to `send_data`, in order, and never two are under way.
pub Reachable-order :
    (s : UdpSocket) (given handed : List UdpMessage)
    → Reachable s given handed
    → ((left_over : List UdpMessage) × (given ≡ handed ++ left_over)) × (s.outstanding ≤ 1)
Reachable-order s given handed r =
    let v = Reachable-InOrder s given handed r in ((v.left_over, v.prefix), v.single)
