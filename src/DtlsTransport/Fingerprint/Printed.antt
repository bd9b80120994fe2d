-- ===== src/DtlsTransport/Fingerprint/Printed.antt =====
-- The parts of a printed fingerprint are its bytes.
use webrtc_stream_server.Prelude.{
  ℕ, suc, ◌-◌, ◌*◌, ◌/◌, ◌%◌, ◌≡◌, refl, ap, ◌∙◌, false, List, [], ◌∷◌, ◌++◌, map, length, arith,
  take_at, ◌==◌,
}
use webrtc_stream_server.DtlsContext.{hex_digit, hex_byte, colon, print_all, print_fingerprint}
use webrtc_stream_server.DtlsTransport.Fingerprint.{prepend, split}

hex_digit-ne : (d : ℕ) → (hex_digit d == colon) ≡ false
unfolding hex_digit
hex_digit-ne d = ground arith

split-hex_byte :
    (b : ℕ) (rest : List ℕ) → split (hex_byte b ++ (colon ∷ rest)) ≡ hex_byte b ∷ split rest
unfolding split prepend hex_byte
split-hex_byte b rest = rw (hex_digit-ne (b / 16), hex_digit-ne (b % 16)) refl

split-last : (b : ℕ) → split (hex_byte b) ≡ hex_byte b ∷ []
unfolding split prepend hex_byte
split-last b = rw (hex_digit-ne (b / 16), hex_digit-ne (b % 16)) refl

print_fingerprint-cons :
    (b c : ℕ) (bs : List ℕ)
    → print_fingerprint (b ∷ c ∷ bs) ≡ hex_byte b ++ (colon ∷ print_fingerprint (c ∷ bs))
unfolding print_fingerprint print_all hex_byte
print_fingerprint-cons b c bs =
    let rest = print_all (c ∷ bs) in
    take_at (length (b ∷ c ∷ bs) * 3 - 1) (suc (suc (suc (length (c ∷ bs) * 3 - 1))))
      (hex_byte b ++ (colon ∷ rest)) (omega arith)

print_fingerprint-one : (b : ℕ) → print_fingerprint (b ∷ []) ≡ hex_byte b
unfolding print_fingerprint print_all hex_byte
print_fingerprint-one b = refl

pub split-print_fingerprint :
    (b : ℕ) (bs : List ℕ) → split (print_fingerprint (b ∷ bs)) ≡ map hex_byte (b ∷ bs)
split-print_fingerprint b [] = rw (print_fingerprint-one b) (split-last b)
split-print_fingerprint b (c ∷ bs) = rw (print_fingerprint-cons b c bs) (
    split-hex_byte b (print_fingerprint (c ∷ bs))
    ∙ ap (λ l. hex_byte b ∷ l) (split-print_fingerprint c bs))
