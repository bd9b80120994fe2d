-- ===== src/Random.antt =====
-- random.h and random.cpp. `draw i` is the number that the library's distribution gives in round `i`.
use webrtc_stream_server.Prelude.{
  ℕ, zero, suc, ◌+◌, ◌≡◌, ◌≤◌, ◌<◌, refl, ◌⊎◌, List, [], ◌∷◌, ◌++◌, arith, length, length-append,
  All, All-append, ltb, if◌then◌else◌,
}

-- The codes of the characters 0 to 9 and a to z.
unfoldable pub character : ℕ → ℕ
character i = if ltb i 10 then 48 + i else 87 + i

abbrev pub characters_size : ℕ
characters_size = 36

-- The loop of `RandomString`.
unfoldable pub random_string : (ℕ → ℕ) → ℕ → List ℕ
random_string draw zero = []
random_string draw (suc length) = random_string draw length ++ (character (draw length) ∷ [])

-- A digit or a small letter.
abbrev IsAlphanumeric : ℕ → Type 0
IsAlphanumeric c = ((c < 58) × (48 ≤ c)) ⊎ ((c < 123) × (97 ≤ c))

character-IsAlphanumeric : (i : ℕ) → i < characters_size → IsAlphanumeric (character i)
unfolding character
character-IsAlphanumeric i h = ground arith

-- Such a string has the length that was asked for and consists of digits and small letters, when the
-- numbers lie in the range that was asked of the library.
pub random_string_lem :
    (draw : ℕ → ℕ) (n : ℕ)
    → ((i : ℕ) → draw i < characters_size)
    → (length (random_string draw n) ≡ n) × All IsAlphanumeric (random_string draw n)
unfolding random_string
random_string_lem draw zero h = (refl, tt)
random_string_lem draw (suc n) h =
    let (size, all) = random_string_lem draw n h in
    (
      omega (arith, length-append (random_string draw n) (character (draw n) ∷ [])),
      All-append IsAlphanumeric (random_string draw n) (character (draw n) ∷ []) all
          (character-IsAlphanumeric (draw n) (h n), tt),
    )
