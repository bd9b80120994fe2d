-- ===== src/MediaSourceManager/Table.antt =====
-- The table of media_source_manager.cpp: no URL is pulled twice, and what is added can be queried.
use Prim.Native.String.{String}
use text.Mathlib.Text.{◌==◌ as str_eq}
use text.Mathlib.TextEquality.{eq_iff}
use text.Mathlib.TextPositions.{eq_refl}
use webrtc_stream_server.Prelude.{
  ℕ, suc, ◌+◌, ◌≡◌, ◌≤◌, refl, ap, subst, Bool, true, Option, none, some, List, [], ◌∷◌,
  if◌then◌else◌, inl, inr, Bool-cases, Option-cases, arith,
}
use webrtc_stream_server.MediaSourceManager.{
  MediaSource, MediaSourceManager, create, find_url, find, insert, erase, add_new, add_unless, add,
  stop_found, remove, query, stop_all,
}

find_url-insert :
    (url id : String) (db : List (String × MediaSource)) (number : ℕ)
    → find_url url db ≡ none
    → find_url url (insert db id (record { url = url; number = number })) ≡ some id
unfolding find_url insert
find_url-insert url id [] number h = rw (eq_refl url) refl
find_url-insert url id ((key, old) ∷ rest) number h = elim (Bool-cases (str_eq old.url url)) [
  | inl same ↦ absurd (let f : some key ≡ none = rw same at h in cc)
  | inr other ↦ elim (Bool-cases (str_eq key id)) [
    | inl taken ↦ let (to, from) = eq_iff key id in rw (taken, eq_refl url) (ap some (to taken))
    | inr free ↦ rw (free, other) (find_url-insert url id rest number (rw other at h))
  ]
]

find-insert :
    (id : String) (db : List (String × MediaSource)) (source : MediaSource)
    → find (insert db id source) id ≡ some source
unfolding find insert
find-insert id [] source = rw (eq_refl id) refl
find-insert id ((key, old) ∷ rest) source = elim (Bool-cases (str_eq key id)) [
  | inl taken ↦ rw (taken, taken) refl
  | inr free ↦ rw (free, free) (find-insert id rest source)
]

-- How many sources pull a URL.
unfoldable pub pulls : String → List (String × MediaSource) → ℕ
pulls url [] = 0
pulls url ((key, source) ∷ rest) =
    let later = pulls url rest in if str_eq source.url url then suc later else later

pulls-none :
    (url : String) (db : List (String × MediaSource)) → find_url url db ≡ none → pulls url db ≡ 0
unfolding find_url pulls
pulls-none url [] h = refl
pulls-none url ((key, source) ∷ rest) h = elim (Bool-cases (str_eq source.url url)) [
  | inl same ↦ absurd (let f : some key ≡ none = rw same at h in cc)
  | inr other ↦ rw other (pulls-none url rest (rw other at h))
]

pulls-insert :
    (url id : String) (db : List (String × MediaSource)) (source : MediaSource)
    → pulls url (insert db id source) ≤ pulls url db + (if str_eq source.url url then 1 else 0)
unfolding pulls insert
pulls-insert url id [] source = ground arith
pulls-insert url id ((key, old) ∷ rest) source = ground (arith, pulls-insert url id rest source)

pulls-erase :
    (url id : String) (db : List (String × MediaSource)) → pulls url (erase db id) ≤ pulls url db
unfolding pulls erase
pulls-erase url id [] = omega arith
pulls-erase url id ((key, old) ∷ rest) = ground (arith, pulls-erase url id rest)

-- `Add` of a URL that opens gives an identifier under which `Query` finds a source of that URL, when the
-- URL was not there; and a second `Add` of the URL, whatever its random identifier, gives the same one and
-- changes nothing.
pub add-add :
    (open_source : String → Bool) (m : MediaSourceManager) (url id id' : String)
    → find_url url m.database ≡ none
    → open_source url ≡ true
    → (query (add open_source m url id).0 id ≡ some (record { url = url; number = m.created }))
      × (add open_source (add open_source m url id).0 url id'
          ≡ ((add open_source m url id).0, some id))
unfolding add add_unless add_new query
add-add open_source m url id id' absent opens = (
  rw (absent, opens) (find-insert id m.database (record { url = url; number = m.created })),
  rw (absent, opens) (rw (find_url-insert url id m.database m.created absent) refl),
)

-- The managers that calls lead to.
pub data Reachable (open_source : String → Bool) : MediaSourceManager → Type 0 where
  created_empty : Reachable open_source create
  added :
      (m : MediaSourceManager) (url id : String)
      → Reachable open_source m
      → Reachable open_source (add open_source m url id).0
  removed :
      (m : MediaSourceManager) (id : String)
      → Reachable open_source m
      → Reachable open_source (remove m id)
  all_stopped :
      (m : MediaSourceManager) → Reachable open_source m → Reachable open_source (stop_all m)

pulls-add :
    (open_source : String → Bool) (m : MediaSourceManager) (url id u : String)
    → pulls u m.database ≤ 1
    → pulls u (add open_source m url id).0.database ≤ 1
unfolding add add_unless add_new
pulls-add open_source m url id u h = elim (Option-cases (find_url url m.database)) [
  | inr (existing, there) ↦ rw there h
  | inl absent ↦ elim (Bool-cases (open_source url)) [
    | inr fails ↦ rw (absent, fails) h
    | inl opens ↦
        let source : MediaSource = record { url = url; number = m.created } in
        let grown = pulls-insert u id m.database source in
        elim (Bool-cases (str_eq url u)) [
          | inr other ↦ rw (absent, opens) (ground (arith, grown))
          | inl same ↦
              let (to, from) = eq_iff url u in
              let zero_u : pulls u m.database ≡ 0 =
                subst (λ x. pulls x m.database ≡ 0) (to same) (pulls-none url m.database absent) in
              rw (absent, opens) (ground (arith, grown, zero_u))
        ]
  ]
]

pulls-stop_found :
    (m : MediaSourceManager) (id u : String) (o : Option MediaSource)
    → pulls u m.database ≤ 1
    → pulls u (stop_found m id o).database ≤ 1
unfolding stop_found
pulls-stop_found m id u none h = h
pulls-stop_found m id u (some source) h = omega (arith, pulls-erase u id m.database)

pulls-remove :
    (m : MediaSourceManager) (id u : String)
    → pulls u m.database ≤ 1
    → pulls u (remove m id).database ≤ 1
unfolding remove
pulls-remove m id u h = pulls-stop_found m id u (find m.database id) h

pulls-stop_all :
    (m : MediaSourceManager) (u : String)
    → pulls u m.database ≤ 1
    → pulls u (stop_all m).database ≤ 1
unfolding stop_all
pulls-stop_all m u h = h

-- After any calls, a URL is pulled by at most one source of the table.
pub Reachable-pulls :
    (open_source : String → Bool) (m : MediaSourceManager) (url : String)
    → Reachable open_source m
    → pulls url m.database ≤ 1
Reachable-pulls open_source _ url created_empty = unfold create pulls in omega arith
Reachable-pulls open_source _ url (added m new id r) =
    pulls-add open_source m new id url (Reachable-pulls open_source m url r)
Reachable-pulls open_source _ url (removed m id r) =
    pulls-remove m id url (Reachable-pulls open_source m url r)
Reachable-pulls open_source _ url (all_stopped m r) =
    pulls-stop_all m url (Reachable-pulls open_source m url r)
