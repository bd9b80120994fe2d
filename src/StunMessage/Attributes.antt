-- ===== src/StunMessage/Attributes.antt =====
-- The loop over the attributes of a STUN message ends.
use webrtc_stream_server.Prelude.{
  ℕ, zero, suc, ◌+◌, ◌<◌, ◌≤◌, ◌≡◌, ◌≢◌, refl, sym, ap, ◌∙◌, subst, Bool, true, false, List, Option,
  some, ◌>>=◌, bind-some, arith, ltb, inl, inr, Bool-cases, Option-cases,
}
use webrtc_stream_server.ByteBuffer.ByteReader.{ByteReader, left, consume, read_uint16}
use webrtc_stream_server.ByteBuffer.ByteReader.Unread.{IsValid}
use webrtc_stream_server.ByteBuffer.ByteReader.Advance.{
  remaining, Moves, Advances, read_uint16-Advances, consume-Advances,
}
use webrtc_stream_server.StunMessage.{
  StunMessage, Found, Scanned, all_read, refused, unfinished, read_attribute, read_round,
  after_round, read_attributes, padded,
}

moved :
    (r : ByteReader) (o : Option (ℕ × ByteReader)) (n a : ℕ) (r' : ByteReader)
    → Advances r n o
    → o ≡ some (a, r')
    → Moves r n r'
moved r o n a r' h e = subst (Advances r n) e h

consumed :
    (r : ByteReader) (size : ℕ) (r' : ByteReader)
    → IsValid r
    → consume r size ≡ some r'
    → Moves r 0 r'
consumed r size r' v e =
    let done : ByteReader → Option (ℕ × ByteReader) = λ r. some (0, r) in
    let h = consume-Advances r size 0 done v (λ r' w. (w, omega arith)) in
    let (w, l) = subst (λ o. Advances r (0 + 0) (o >>= done)) e h in (w, omega arith)

-- A round that succeeds leaves a valid reader with at least four bytes less.
read_round-some :
    (m : StunMessage) (bytes : List ℕ) (r r' : ByteReader) (found found' : Found)
    → IsValid r
    → read_round m bytes r found ≡ some (found', r')
    → IsValid r' × (remaining r' + 4 ≤ remaining r)
unfolding read_round
read_round-some m bytes r r' found found' v e =
    let ((attr_type, r1), e1, rest1) = bind-some (read_uint16 r) _ (found', r') e in
    let ((attr_length, r2), e2, rest2) = bind-some (read_uint16 r1) _ (found', r') rest1 in
    let (found2, e3, rest3) =
      bind-some (read_attribute m bytes r2 attr_type attr_length found) _ (found', r') rest2 in
    let (r3, e4, rest4) = bind-some (consume r2 (padded attr_length)) _ (found', r') rest3 in
    let (v1, l1) = moved r (read_uint16 r) 2 attr_type r1 (read_uint16-Advances r v) e1 in
    let (v2, l2) = moved r1 (read_uint16 r1) 2 attr_length r2 (read_uint16-Advances r1 v1) e2 in
    let (v3, l3) = consumed r2 (padded attr_length) r3 v2 e4 in
    let pair : ◌≡◌ {A = Option (Found × ByteReader)} (some (found2, r3)) (some (found', r')) =
      rest4 in
    let same : r3 ≡ r' =
      (let g : ◌≡◌ {A = Found × ByteReader} (found2, r3) (found', r') = cc in ap (λ p. p.1) g) in
    subst (λ x. IsValid x × (remaining x + 4 ≤ remaining r)) same (v3, omega arith)

unfoldable is_unfinished : Scanned → Bool
is_unfinished (all_read found) = false
is_unfinished refused = false
is_unfinished unfinished = true

ends :
    (m : StunMessage) (bytes : List ℕ) (rounds : ℕ) (r : ByteReader) (found : Found)
    → IsValid r
    → remaining r < rounds
    → is_unfinished (read_attributes m bytes rounds r found) ≡ false
unfolding read_attributes is_unfinished after_round
ends m bytes zero r found v h = absurd (omega arith)
ends m bytes (suc rounds) r found v h = elim (Bool-cases (ltb 0 (left r))) [
  | inr over ↦ rw over refl
  | inl inside ↦ elim (Option-cases (read_round m bytes r found)) [
    | inl refuses ↦ rw (inside, refuses) refl
    | inr ((found', r'), round) ↦
        let (v', l) = read_round-some m bytes r r' found found' v round in
        rw (inside, round) (ends m bytes rounds r' found' v' (omega arith))
  ]
]

agree :
    (m : StunMessage) (bytes : List ℕ) (rounds more : ℕ) (r : ByteReader) (found : Found)
    → IsValid r
    → remaining r < rounds
    → remaining r < more
    → read_attributes m bytes rounds r found ≡ read_attributes m bytes more r found
unfolding read_attributes after_round
agree m bytes zero more r found v h k = absurd (omega arith)
agree m bytes (suc rounds) zero r found v h k = absurd (omega arith)
agree m bytes (suc rounds) (suc more) r found v h k = elim (Bool-cases (ltb 0 (left r))) [
  | inr over ↦ rw over refl
  | inl inside ↦ elim (Option-cases (read_round m bytes r found)) [
    | inl refuses ↦ rw (inside, refuses) refl
    | inr ((found', r'), round) ↦
        let (v', l) = read_round-some m bytes r r' found found' v round in
        rw (inside, round) (agree m bytes rounds more r' found' v' (omega arith) (omega arith))
  ]
]

-- For a valid reader and more rounds than bytes are left, the loop is not cut off: it ends by its own
-- test or refuses an attribute. Any two such numbers of rounds give the same answer.
pub read_attributes-rounds :
    (m : StunMessage) (bytes : List ℕ) (rounds more : ℕ) (r : ByteReader) (found : Found)
    → IsValid r
    → remaining r < rounds
    → remaining r < more
    → (read_attributes m bytes rounds r found ≢ unfinished)
      × (read_attributes m bytes rounds r found ≡ read_attributes m bytes more r found)
read_attributes-rounds m bytes rounds more r found v h k = (
  λ cut.
      let f : false ≡ true =
        sym (ends m bytes rounds r found v h)
        ∙ ap is_unfinished cut
        ∙ (unfold is_unfinished in refl) in
      absurd (let g : false ≡ true = f in cc),
  agree m bytes rounds more r found v h k,
)
