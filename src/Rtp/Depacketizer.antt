-- ===== src/Rtp/Depacketizer.antt =====
-- The receiver of RFC 6184 over RTP payloads, in packetization mode 1 without aggregation packets:
-- the independent reading of what the packetizer sends.
pub mod RoundTrip
use webrtc_stream_server.Prelude.{
  ℕ, ◌+◌, ◌*◌, ◌/◌, ◌%◌, ◌&&◌, not, List, [], ◌∷◌, ◌++◌, Option, none, some, ◌==◌, if◌then◌else◌,
}
use mathlib.Core.Option

-- A fragment, by its header: the NAL unit so far is `unit`, and `rest` reads what follows.
-- `receive unit payloads` holds the NAL unit of which some fragments have come under `some`.
unfoldable pub receive : Option (List ℕ) → List (List ℕ) → Option (List (List ℕ))
receive none [] = some []
receive (some unit) [] = none
receive pending ([] ∷ payloads) = none
receive none ((h ∷ []) ∷ payloads) =
    if h % 32 == 28 then none else Option.map (λ units. (h ∷ []) ∷ units) (receive none payloads)
receive (some unit) ((h ∷ []) ∷ payloads) = none
receive none ((h ∷ (f ∷ chunk)) ∷ payloads) =
    let unit = (h / 32 * 32 + f % 32) ∷ chunk in
    let single = Option.map (λ units. (h ∷ (f ∷ chunk)) ∷ units) (receive none payloads) in
    let whole = Option.map (λ units. unit ∷ units) (receive none payloads) in
    let more = receive (some unit) payloads in
    if h % 32 == 28
    then (if f / 128 == 1 then (if f / 64 % 2 == 1 then whole else more) else none)
    else single
receive (some unit) ((h ∷ (f ∷ chunk)) ∷ payloads) =
    let whole = Option.map (λ units. (unit ++ chunk) ∷ units) (receive none payloads) in
    let more = receive (some (unit ++ chunk)) payloads in
    if (h % 32 == 28) && (f / 128 == 0) then (if f / 64 % 2 == 1 then whole else more) else none
