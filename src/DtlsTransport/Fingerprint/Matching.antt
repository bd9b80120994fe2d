-- ===== src/DtlsTransport/Fingerprint/Matching.antt =====
-- A fingerprint in the form that the server prints is read back, and a certificate passes the check
-- exactly when it has that fingerprint.
use Prim.Native.String.{String}
use webrtc_stream_server.Prelude.{
  ℕ, ◌+◌, ◌-◌, ◌≡◌, ◌≤◌, ◌↔◌, refl, sym, ap, ◌∙◌, true, false, Option, none, some, List, [], ◌∷◌,
  ◌/◌, ◌%◌, ◌++◌, map, length, take, drop, arith, append_assoc, length-take, take_at,
  take-append_add, write_at, append-nil, length-write_at, ◌==◌, leb, All, IsByte, inl, inr,
  Bool-cases, ==_iff,
}
use webrtc_stream_server.DtlsContext.{
  Hash, sha1, sha224, sha256, sha384, sha512, unknown_hash, hex_byte, print_fingerprint,
  get_string_from_hash, get_hash_from_string, same_hash,
}
use webrtc_stream_server.DtlsTransport.{Ssl, DtlsTransport}
use webrtc_stream_server.DtlsTransport.Keys.{
  same_bytes, compare_digest, check_certificate, check_remote_certificate,
}
use webrtc_stream_server.DtlsTransport.Fingerprint.{
  evp_max_md_size, little_endian, store_value, store_parts, keep, set_remote_fingerprint,
}
use webrtc_stream_server.DtlsTransport.Fingerprint.Printed.{split-print_fingerprint}

take-write_at_one :
    (buf : List ℕ) (pos b : ℕ) (bs : List ℕ)
    → pos ≤ length buf
    → take (pos + 1) (write_at buf pos (b ∷ bs)) ≡ take pos buf ++ (b ∷ [])
take-write_at_one buf pos b bs h =
    let behind = drop (pos + length (b ∷ bs)) buf in
    take_at (pos + 1) (length (take pos buf) + 1) (write_at buf pos (b ∷ bs))
      (omega (arith, length-take pos buf))
    ∙ take-append_add 1 (take pos buf) ((b ∷ bs) ++ behind)

-- `sscanf` reads the two digits of a byte.
unfoldable pub Scans : (List ℕ → Option ℕ) → Type 0
Scans scan = (b : ℕ) → IsByte b → scan (hex_byte b) ≡ some b

little_endian-byte : (b : ℕ) → IsByte b → little_endian b ≡ b ∷ 0 ∷ 0 ∷ 0 ∷ []
unfolding little_endian
little_endian-byte b byte =
    let low : b % 256 ≡ b = omega arith in
    let second : b / 256 % 256 ≡ 0 = omega arith in
    let third : b / 65536 % 256 ≡ 0 = omega arith in
    let high : b / 16777216 % 256 ≡ 0 = omega arith in rw (low, second, third, high) refl

store_value-some :
    (pos b : ℕ) (buf : List ℕ)
    → IsByte b
    → pos + 4 ≤ evp_max_md_size
    → store_value pos (some b) buf ≡ some (write_at buf pos (b ∷ 0 ∷ 0 ∷ 0 ∷ []))
unfolding store_value
store_value-some pos b buf byte h =
    let test : leb (pos + 4) evp_max_md_size ≡ true = ground arith in
    rw (test, little_endian-byte b byte) refl

store_parts_lem :
    (scan : List ℕ → Option ℕ) (pos : ℕ) (bs buf : List ℕ)
    → Scans scan
    → All IsByte bs
    → length buf ≡ evp_max_md_size
    → pos + length bs ≤ 61
    → (buf' : List ℕ) × (store_parts scan pos (map hex_byte bs) buf ≡ some buf')
      × (take (pos + length bs) buf' ≡ take pos buf ++ bs)
      × (length buf' ≡ evp_max_md_size)
unfolding store_parts Scans
store_parts_lem scan pos [] buf scans bytes size h =
    (buf, refl, take_at (pos + 0) pos buf (omega arith) ∙ sym (append-nil (take pos buf)), size)
store_parts_lem scan pos (b ∷ bs) buf scans (byte, bytes) size h =
    let buf1 = write_at buf pos (b ∷ 0 ∷ 0 ∷ 0 ∷ []) in
    let size1 = length-write_at buf pos (b ∷ 0 ∷ 0 ∷ 0 ∷ []) (omega arith) ∙ size in
    let (buf', stored, taken, size') =
      store_parts_lem scan (pos + 1) bs buf1 scans bytes size1 (omega arith) in
    let early : (pos == evp_max_md_size - 1) ≡ false = ground arith in
    (
      buf',
      rw (early, scans b byte, store_value-some pos b buf byte (omega arith)) stored,
      take_at (pos + length (b ∷ bs)) (pos + 1 + length bs) buf' (omega arith)
          ∙ taken
          ∙ ap (λ l. l ++ bs) (take-write_at_one buf pos b (0 ∷ 0 ∷ 0 ∷ []) (omega arith))
          ∙ append_assoc (take pos buf) (b ∷ []) bs,
      size',
    )

store_parts-none :
    (scan : List ℕ → Option ℕ) (pos : ℕ) (bs buf : List ℕ)
    → Scans scan
    → All IsByte bs
    → pos ≤ 61
    → 62 ≤ pos + length bs
    → store_parts scan pos (map hex_byte bs) buf ≡ none
unfolding store_parts store_value Scans
store_parts-none scan pos [] buf scans bytes h k = absurd (omega arith)
store_parts-none scan pos (b ∷ bs) buf scans (byte, bytes) h k =
    let early : (pos == evp_max_md_size - 1) ≡ false = ground arith in
    elim (Bool-cases (leb (pos + 4) evp_max_md_size)) [
      | inl fits ↦
          let left : pos + 1 ≤ 61 = ground (arith, fits) in
          let buf1 = write_at buf pos (little_endian b) in
          rw (early, scans b byte, fits)
            (store_parts-none scan (pos + 1) bs buf1 scans bytes left (omega arith))
      | inr over ↦ rw (early, scans b byte, over) refl
    ]

-- `memcmp` answers that all the bytes are equal.
same_bytes_sound :
    (xs buf : List ℕ)
    → length xs ≤ length buf
    → same_bytes xs buf ≡ true
    → take (length xs) buf ≡ xs
unfolding same_bytes
same_bytes_sound [] buf h e = refl
same_bytes_sound (x ∷ xs) [] h e = absurd (omega arith)
same_bytes_sound (x ∷ xs) (b ∷ bs) h e = elim (Bool-cases (x == b)) [
  | inl same ↦
      let (to, from) = ==_iff x b in
      let later = same_bytes_sound xs bs (omega arith) (rw same at e) in rw (to same, later) refl
  | inr other ↦ absurd (let f : false ≡ true = rw other at e in cc)
]

same_bytes_complete :
    (xs buf : List ℕ)
    → length xs ≤ length buf
    → take (length xs) buf ≡ xs
    → same_bytes xs buf ≡ true
unfolding same_bytes
same_bytes_complete [] buf h e = refl
same_bytes_complete (x ∷ xs) [] h e = absurd (omega arith)
same_bytes_complete (x ∷ xs) (b ∷ bs) h e =
    let heads : x ≡ b = cc in
    let tails : take (length xs) bs ≡ xs = cc in
    let (to, from) = ==_iff x b in
    rw (from heads, same_bytes_complete xs bs (omega arith) tails) refl

-- A transport that was given a fingerprint.
stored_fingerprint :
    {S : Type 0} (scan : List ℕ → Option ℕ) (t : DtlsTransport S) (name : String) (b : ℕ)
    (bs : List ℕ)
    → Scans scan
    → All IsByte (b ∷ bs)
    → length t.remote_fingerprint ≡ evp_max_md_size
    → length (b ∷ bs) ≤ 61
    → (t' : DtlsTransport S) × (set_remote_fingerprint scan t name (print_fingerprint (b ∷ bs))
        ≡ some t')
      × (take (length (b ∷ bs)) t'.remote_fingerprint ≡ b ∷ bs)
      × (length t'.remote_fingerprint ≡ evp_max_md_size)
      × (t'.remote_hash ≡ get_hash_from_string name)
unfolding set_remote_fingerprint keep
stored_fingerprint scan t name b bs scans bytes size h =
    let (buf', stored, taken, size') =
      store_parts_lem scan 0 (b ∷ bs) t.remote_fingerprint scans bytes size (omega arith) in
    (
      record t { remote_hash = get_hash_from_string name; remote_fingerprint = buf' },
      rw (split-print_fingerprint b bs, stored) refl,
      take_at (length (b ∷ bs)) (0 + length (b ∷ bs)) buf' (omega arith) ∙ taken,
      size',
      refl,
    )

get_hash_from_string-get_string_from_hash :
    (hash : Hash)
    → same_hash hash unknown_hash ≡ false
    → get_hash_from_string (get_string_from_hash hash) ≡ hash
unfolding get_hash_from_string get_string_from_hash same_hash
get_hash_from_string-get_string_from_hash sha1 h = refl
get_hash_from_string-get_string_from_hash sha224 h = refl
get_hash_from_string-get_string_from_hash sha256 h = refl
get_hash_from_string-get_string_from_hash sha384 h = refl
get_hash_from_string-get_string_from_hash sha512 h = refl
get_hash_from_string-get_string_from_hash unknown_hash h = absurd (let f : true ≡ false = h in cc)

module _ {S Cert : Type 0} (lib : Ssl S Cert) (scan : List ℕ → Option ℕ) (scans : Scans scan)
    (t : DtlsTransport S) (size : length t.remote_fingerprint ≡ evp_max_md_size) where
  -- The offer's fingerprint, of at most 61 bytes and in the form that the server prints its own, is
  -- taken over without a write past the array; from then on the check of a peer's certificate, whose
  -- digest has the same length, passes exactly when the digest is that fingerprint.
  pub check_remote_certificate-set_remote_fingerprint :
      (hash : Hash) (b : ℕ) (bs digest : List ℕ) (s : S) (certificate : Cert)
      → same_hash hash unknown_hash ≡ false
      → All IsByte (b ∷ bs)
      → length (b ∷ bs) ≤ 61
      → lib.get_peer_certificate s ≡ some certificate
      → lib.digest certificate hash ≡ some digest
      → length digest ≡ length (b ∷ bs)
      → (t' : DtlsTransport S) × (set_remote_fingerprint scan t
            (get_string_from_hash hash)
            (print_fingerprint (b ∷ bs))
          ≡ some t')
        × ((check_remote_certificate lib t' s ≡ true) ↔ (digest ≡ b ∷ bs))
  unfolding check_remote_certificate check_certificate compare_digest
  check_remote_certificate-set_remote_fingerprint hash b bs digest s certificate known bytes h peer
        dig same =
      let (t', stored, taken, size', hashed) =
        stored_fingerprint scan t (get_string_from_hash hash) b bs scans bytes size h in
      let hash' = hashed ∙ get_hash_from_string-get_string_from_hash hash known in
      let fits : length digest ≤ length t'.remote_fingerprint = omega arith in
      let first : take (length digest) t'.remote_fingerprint ≡ b ∷ bs =
        take_at (length digest) (length (b ∷ bs)) t'.remote_fingerprint same ∙ taken in
      (
        t',
        stored,
        (
          (λ e.
              sym (
                same_bytes_sound digest t'.remote_fingerprint fits
                  (rw (peer, hash', known, dig) at e))
              ∙ first),
          (λ e.
              rw (peer, hash', known, dig)
                (same_bytes_complete digest t'.remote_fingerprint fits (first ∙ sym e))),
        ),
      )

  -- A fingerprint of 62 bytes or more, such as every one by SHA-512, makes `SetRemoteFingerprint` write
  -- past the end of its array.
  pub set_remote_fingerprint-none :
      (name : String) (b : ℕ) (bs : List ℕ)
      → All IsByte (b ∷ bs)
      → 62 ≤ length (b ∷ bs)
      → set_remote_fingerprint scan t name (print_fingerprint (b ∷ bs)) ≡ none
  unfolding set_remote_fingerprint keep
  set_remote_fingerprint-none name b bs bytes h =
      rw
        (
          split-print_fingerprint b bs,
          store_parts-none scan 0 (b ∷ bs) t.remote_fingerprint scans bytes (omega arith)
              (omega arith),
        )
        refl
