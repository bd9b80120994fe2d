-- ===== src/MediaSourceManager.antt =====
-- media_source_manager.h and media_source_manager.cpp: the sources by identifier. A source is its URL and
-- the number of the `MediaSource` object, and `stopped` lists those whose `Stop` was called; `open_source`
-- says whether `Open` succeeds on a URL.
pub mod Table
use Prim.Native.String.{String}
use text.Mathlib.Text.{◌==◌ as str_eq}
use webrtc_stream_server.Prelude.{
  ℕ, ◌+◌, Bool, true, false, Option, none, some, List, [], ◌∷◌, ◌++◌, if◌then◌else◌, map,
}

pub record MediaSource : Type 0 where
  pub url : String
  pub number : ℕ

pub record MediaSourceManager : Type 0 where
  pub database : List (String × MediaSource)
  pub created : ℕ
  pub stopped : List ℕ

unfoldable pub create : MediaSourceManager
create = record { database = []; created = 0; stopped = [] }

-- `std::find_if` by URL.
unfoldable pub find_url : String → List (String × MediaSource) → Option String
find_url url [] = none
find_url url ((id, source) ∷ rest) =
    let later = find_url url rest in if str_eq source.url url then some id else later

unfoldable pub find : List (String × MediaSource) → String → Option MediaSource
find [] id = none
find ((key, source) ∷ rest) id =
    let later = find rest id in if str_eq key id then some source else later

-- `operator[]` and assignment.
unfoldable pub insert :
    List (String × MediaSource) → String → MediaSource → List (String × MediaSource)
insert [] id source = (id, source) ∷ []
insert ((key, old) ∷ rest) id source =
    let later = insert rest id source in
    if str_eq key id then (key, source) ∷ rest else (key, old) ∷ later

unfoldable pub erase : List (String × MediaSource) → String → List (String × MediaSource)
erase [] id = []
erase ((key, source) ∷ rest) id =
    let later = erase rest id in if str_eq key id then rest else (key, source) ∷ later

-- `id` is what `RandomString` gives; an existing source of the URL is found first.
unfoldable pub add_new :
    MediaSourceManager → Bool → String → String → MediaSourceManager × Option String
add_new m opened url id =
    let source : MediaSource = record { url = url; number = m.created } in
    if opened
    then (record m { database = insert m.database id source; created = m.created + 1 }, some id)
    else (record m { created = m.created + 1 }, none)

unfoldable pub add_unless :
    MediaSourceManager → Option String → Bool → String → String → MediaSourceManager × Option String
add_unless m none opened url id = add_new m opened url id
add_unless m (some existing) opened url id = (m, some existing)

unfoldable pub add :
    (String → Bool) → MediaSourceManager → String → String → MediaSourceManager × Option String
add open_source m url id = add_unless m (find_url url m.database) (open_source url) url id

unfoldable pub stop_found : MediaSourceManager → String → Option MediaSource → MediaSourceManager
stop_found m id none = m
stop_found m id (some source) = record m {
  stopped = source.number ∷ m.stopped;
  database = erase m.database id;
}

unfoldable pub remove : MediaSourceManager → String → MediaSourceManager
remove m id = stop_found m id (find m.database id)

unfoldable pub query : MediaSourceManager → String → Option MediaSource
query m id = find m.database id

-- The identifier and the URL of each source.
unfoldable pub list : MediaSourceManager → List (String × String)
list m = map (λ e. (e.0, e.1.url)) m.database

unfoldable pub stop_all : MediaSourceManager → MediaSourceManager
stop_all m = record m { stopped = map (λ e. e.1.number) m.database ++ m.stopped }
