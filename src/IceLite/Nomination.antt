-- ===== src/IceLite/Nomination.antt =====
-- A candidate is chosen only after a check from it has been answered.
use webrtc_stream_server.Prelude.{
  ℕ, ◌≡◌, ◌⊎◌, refl, true, false, subst, List, [], ◌∷◌, Option, none, some, inl, inr, Bool-cases,
  ◌==◌, ==_iff,
}
use webrtc_stream_server.StunMessage.{StunMessage}
use webrtc_stream_server.IceLite.{
  IceLite, create, contains, emplace, use_candidate, process_parsed, process_stun_message,
}

contains-emplace :
    (xs : List ℕ) (ep q : ℕ) → contains (emplace xs ep) q ≡ true → (ep ≡ q) ⊎ (contains xs q ≡ true)
unfolding contains emplace
contains-emplace xs ep q h = elim (Bool-cases (contains xs ep)) [
  | inl there ↦ inr (rw there at h)
  | inr absent ↦ elim (Bool-cases (ep == q)) [
    | inl same ↦ inl ((==_iff ep q).0 same)
    | inr other ↦ inr (rw (absent, other) at h)
  ]
]

module _ (parse : List ℕ → Option StunMessage) (respond : StunMessage → ℕ → List ℕ) where
  -- The candidates that datagrams lead to, with the datagrams and their endpoints, the last one first.
  pub data Reachable : List (List ℕ × ℕ) → IceLite → Type 0 where
    created : Reachable [] create
    received :
        (log : List (List ℕ × ℕ)) (ice : IceLite) (bytes : List ℕ) (remote_ep : ℕ)
        → Reachable log ice
        → Reachable
            ((bytes, remote_ep) ∷ log)
            (process_stun_message respond parse ice bytes remote_ep).0

  -- Among the datagrams is a valid check from the endpoint.
  pub data HasCheck (ep : ℕ) : List (List ℕ × ℕ) → Type 0 where
    by_last :
        (bytes : List ℕ) (msg : StunMessage) (log : List (List ℕ × ℕ))
        → parse bytes ≡ some msg
        → HasCheck ep ((bytes, ep) ∷ log)
    by_earlier :
        (d : List ℕ × ℕ) (log : List (List ℕ × ℕ)) → HasCheck ep log → HasCheck ep (d ∷ log)

  -- A valid check from the endpoint uses it as the candidate, and another one came before.
  pub data IsNominated (ep : ℕ) : List (List ℕ × ℕ) → Type 0 where
    by_use :
        (bytes : List ℕ) (msg : StunMessage) (log : List (List ℕ × ℕ))
        → parse bytes ≡ some msg
        → msg.has_use_candidate ≡ true
        → HasCheck ep log
        → IsNominated ep ((bytes, ep) ∷ log)
    by_earlier_use :
        (d : List ℕ × ℕ) (log : List (List ℕ × ℕ)) → IsNominated ep log → IsNominated ep (d ∷ log)

  IsJustified : List (List ℕ × ℕ) → IceLite → Type 0
  IsJustified log ice =
      ((q : ℕ) → contains ice.valid_candidates q ≡ true → HasCheck q log)
      × ((ice.favored_candidate ≡ 0) ⊎ IsNominated ice.favored_candidate log)

  later :
      (d : List ℕ × ℕ) (log : List (List ℕ × ℕ)) (ep : ℕ)
      → (ep ≡ 0) ⊎ IsNominated ep log
      → (ep ≡ 0) ⊎ IsNominated ep (d ∷ log)
  later d log ep (inl unset) = inl unset
  later d log ep (inr chosen) = inr (by_earlier_use d log chosen)

  -- The candidates after a valid check.
  emplaced :
      (log : List (List ℕ × ℕ)) (xs bytes : List ℕ) (ep : ℕ) (msg : StunMessage)
      → parse bytes ≡ some msg
      → ((q : ℕ) → contains xs q ≡ true → HasCheck q log)
      → (q : ℕ) → contains (emplace xs ep) q ≡ true
      → HasCheck q ((bytes, ep) ∷ log)
  emplaced log xs bytes ep msg e checks q h = elim (contains-emplace xs ep q h) [
    | inl same ↦ subst (λ x. HasCheck x ((bytes, ep) ∷ log)) same (by_last bytes msg log e)
    | inr before ↦ by_earlier (bytes, ep) log (checks q before)
  ]

  process_parsed-IsJustified :
      (log : List (List ℕ × ℕ)) (ice : IceLite) (bytes : List ℕ) (ep : ℕ) (o : Option StunMessage)
      → parse bytes ≡ o
      → IsJustified log ice
      → IsJustified ((bytes, ep) ∷ log) (process_parsed respond ice ep o).0
  unfolding IsJustified process_parsed use_candidate
  process_parsed-IsJustified log ice bytes ep none e (checks, chosen) = (
    λ q h. by_earlier (bytes, ep) log (checks q h),
    later (bytes, ep) log ice.favored_candidate chosen,
  )
  process_parsed-IsJustified log ice bytes ep (some msg) e (checks, chosen) =
      let all = emplaced log ice.valid_candidates bytes ep msg e checks in
      let before = later (bytes, ep) log ice.favored_candidate chosen in
      elim (Bool-cases msg.has_use_candidate) [
        | inr plain ↦ rw plain (all, before)
        | inl uses ↦ elim (Bool-cases (contains ice.valid_candidates ep)) [
          | inl known ↦ rw (uses, known) (all, inr (by_use bytes msg log e uses (checks ep known)))
          | inr unknown ↦ rw (uses, unknown) (all, before)
        ]
      ]

  Reachable-IsJustified :
      (log : List (List ℕ × ℕ)) (ice : IceLite) → Reachable log ice → IsJustified log ice
  unfolding create process_stun_message
  Reachable-IsJustified _ _ created =
      unfold IsJustified contains in ((λ q h. absurd (let f : false ≡ true = h in cc)), inl refl)
  Reachable-IsJustified _ _ (received log ice bytes remote_ep r) =
      process_parsed-IsJustified log ice bytes remote_ep (parse bytes) refl
        (Reachable-IsJustified log ice r)

  -- After any sequence of datagrams, valid or not: either no candidate is chosen, or the chosen one is an
  -- endpoint from which a valid check has come that uses it as the candidate, after an earlier valid
  -- check from the same endpoint, whatever the code of the STUN message makes of the datagrams.
  pub Reachable-favored_candidate :
      (log : List (List ℕ × ℕ)) (ice : IceLite)
      → Reachable log ice
      → (ice.favored_candidate ≡ 0) ⊎ IsNominated ice.favored_candidate log
  unfolding IsJustified
  Reachable-favored_candidate log ice r = (Reachable-IsJustified log ice r).1
