-- ===== src/WebrtcTransport/Offer/Stages.antt =====
-- What each stage of `SetOffer` demands of a line, and what it takes from it.
use Prim.Native.String.{String}
use text.Mathlib.Text.{◌==◌ as str_eq}
use webrtc_stream_server.Prelude.{
  ℕ, ◌≡◌, ◌⊎◌, refl, sym, ap, ◌∙◌, true, Option, none, some, List, if◌then◌else◌, bind-some, ◌||◌,
  inl, inr, Bool-cases, Option-cases, subst,
}
use webrtc_stream_server.WebrtcTransport.Offer.{
  RtpItem, FmtpItem, FingerprintItem, Media, Offered, find_codec, find_config, read_setup, is_empty,
  read_ice, read_fingerprint_parts, read_fingerprint, read_audio, read_fmtp, read_video, read_kind,
  read_media,
}
use webrtc_stream_server.WebrtcTransport.Offer.Items.{apt}

-- What the code demands of every line.
pub record IsComplete (m : Media) : Type 0 where
  pub setup : String
  pub has_setup : m.setup ≡ some setup
  pub ufrag : String
  pub has_ufrag : m.ice_ufrag ≡ some ufrag
  pub pwd : String
  pub has_pwd : m.ice_pwd ≡ some pwd
  pub item : FingerprintItem
  pub has_fingerprint : m.fingerprint ≡ some item
  pub hash_name : String
  pub has_type : item.type ≡ some hash_name
  pub digest : String
  pub has_hash : item.hash ≡ some digest

-- The stages before that of the kind leave the payload types.
abbrev SamePayloads : Offered → Offered → Type 0
SamePayloads o o' =
    (o'.rtp_opus_payload ≡ o.rtp_opus_payload)
    × (o'.rtp_h264_payload ≡ o.rtp_h264_payload)
    × (o'.rtp_h264_rtx_payload ≡ o.rtp_h264_rtx_payload)

read_setup-some :
    (o o' : Offered) (x : Option String)
    → read_setup o x ≡ some o'
    → ((s : String) × (x ≡ some s)) × SamePayloads o o'
unfolding read_setup
read_setup-some o o' none e = absurd (let f : none ≡ some o' = e in cc)
read_setup-some o o' (some s) e =
    let o1 : Offered = record o { remote_setup = s } in
    let same : o1 ≡ o' = (let f : some o1 ≡ some o' = e in cc) in
    ((s, refl), subst (SamePayloads o) same (refl, refl, refl))

read_ice-some :
    (o o' : Offered) (x y : Option String)
    → read_ice o x y ≡ some o'
    → ((s : String) × (x ≡ some s)) × ((s : String) × (y ≡ some s)) × SamePayloads o o'
unfolding read_ice
read_ice-some o o' none y e = absurd (let f : none ≡ some o' = e in cc)
read_ice-some o o' (some u) none e = absurd (let f : none ≡ some o' = e in cc)
read_ice-some o o' (some u) (some p) e =
    let first = is_empty o.local_ufrag || is_empty o.local_pwd in
    let o1 : Offered = if first then record o { local_ufrag = u; local_pwd = p } else o in
    let same : o1 ≡ o' = (let f : some o1 ≡ some o' = e in cc) in
    let keeps : SamePayloads o o1 = elim (Bool-cases first) [
      | inl b ↦ rw b (refl, refl, refl)
      | inr b ↦ rw b (refl, refl, refl)
    ] in
    ((u, refl), (p, refl), subst (SamePayloads o) same keeps)

read_fingerprint_parts-some :
    (o o' : Offered) (x y : Option String)
    → read_fingerprint_parts o x y ≡ some o'
    → ((s : String) × (x ≡ some s)) × ((s : String) × (y ≡ some s)) × SamePayloads o o'
unfolding read_fingerprint_parts
read_fingerprint_parts-some o o' none y e = absurd (let f : none ≡ some o' = e in cc)
read_fingerprint_parts-some o o' (some u) none e = absurd (let f : none ≡ some o' = e in cc)
read_fingerprint_parts-some o o' (some u) (some p) e =
    let first = is_empty o.fingerprint_type || is_empty o.fingerprint_hash in
    let o1 : Offered =
      if first then record o { fingerprint_type = u; fingerprint_hash = p } else o in
    let same : o1 ≡ o' = (let f : some o1 ≡ some o' = e in cc) in
    let keeps : SamePayloads o o1 = elim (Bool-cases first) [
      | inl b ↦ rw b (refl, refl, refl)
      | inr b ↦ rw b (refl, refl, refl)
    ] in
    ((u, refl), (p, refl), subst (SamePayloads o) same keeps)

-- What the retransmission items of a line contribute, where `h264` is the payload type of the video.
ContributesItems : Option (List FmtpItem) → Option ℕ → Option ℕ → Option ℕ → Type 0
ContributesItems fmtp h264 before after =
    (after ≡ before)
    ⊎ ((items : List FmtpItem) × (fmtp ≡ some items)
        × (after ≡ find_config (apt h264) items before))

read_fmtp-ContributesItems :
    (o : Offered) (x : Option (List FmtpItem))
    → ((read_fmtp o x).rtp_opus_payload ≡ o.rtp_opus_payload)
      × ((read_fmtp o x).rtp_h264_payload ≡ o.rtp_h264_payload)
      × ContributesItems x
          (read_fmtp o x).rtp_h264_payload
          o.rtp_h264_rtx_payload
          (read_fmtp o x).rtp_h264_rtx_payload
unfolding read_fmtp ContributesItems
read_fmtp-ContributesItems o none = (refl, refl, inl refl)
read_fmtp-ContributesItems o (some items) = (refl, refl, inr (items, refl, refl))

-- What a line contributes to the payload types.
unfoldable pub Contributes : String → String → Media → Option ℕ → Option ℕ → Type 0
Contributes kind name m before after =
    (after ≡ before)
    ⊎ ((items : List RtpItem) × (str_eq m.media_type kind ≡ true)
        × (m.rtp ≡ some items)
        × (after ≡ find_codec name items before))

-- What a line contributes to the payload type of the retransmissions.
unfoldable pub ContributesRtx : Media → Option ℕ → Option ℕ → Option ℕ → Type 0
ContributesRtx m h264 before after =
    (after ≡ before)
    ⊎ ((items : List FmtpItem) × (str_eq m.media_type "video" ≡ true)
        × (m.fmtp ≡ some items)
        × (after ≡ find_config (apt h264) items before))

video-ContributesRtx :
    (m : Media) (h264 before after : Option ℕ)
    → str_eq m.media_type "video" ≡ true
    → ContributesItems m.fmtp h264 before after
    → ContributesRtx m h264 before after
unfolding ContributesItems ContributesRtx
video-ContributesRtx m h264 before after is_video (inl same) = inl same
video-ContributesRtx m h264 before after is_video (inr (items, has, found)) =
    inr (items, is_video, has, found)

read_kind-some :
    (m : Media) (o o' : Offered)
    → read_kind m o ≡ some o'
    → Contributes "audio" "opus" m o.rtp_opus_payload o'.rtp_opus_payload
      × Contributes "video" "H264" m o.rtp_h264_payload o'.rtp_h264_payload
      × ContributesRtx m o'.rtp_h264_payload o.rtp_h264_rtx_payload o'.rtp_h264_rtx_payload
unfolding read_kind Contributes
read_kind-some m o o' e = elim (Bool-cases (str_eq m.media_type "audio")) [
  | inl is_audio ↦ elim (Option-cases m.rtp) [
    | inl gone ↦
        absurd (let f : none ≡ some o' = unfold read_audio in (rw (is_audio, gone) at e) in cc)
    | inr (items, has) ↦
        let o1 : Offered = record o {
          rtp_opus_payload = find_codec "opus" items o.rtp_opus_payload;
        } in
        let same : o1 ≡ o' =
          (let f : some o1 ≡ some o' = unfold read_audio in (rw (is_audio, has) at e) in cc) in
        (
          inr (items, is_audio, has, ap (λ x. x.rtp_opus_payload) (sym same)),
          inl (ap (λ x. x.rtp_h264_payload) (sym same)),
          unfold ContributesRtx in inl (ap (λ x. x.rtp_h264_rtx_payload) (sym same)),
        )
  ]
  | inr not_audio ↦ elim (Bool-cases (str_eq m.media_type "video")) [
    | inl is_video ↦ elim (Option-cases m.rtp) [
      | inl gone ↦ absurd (
          let f : none ≡ some o' = unfold read_video in (rw (not_audio, is_video, gone) at e) in cc)
      | inr (items, has) ↦
          let o1 : Offered = record o {
            rtp_h264_payload = find_codec "H264" items o.rtp_h264_payload;
          } in
          let same : read_fmtp o1 m.fmtp ≡ o' =
            (let f : some (read_fmtp o1 m.fmtp) ≡ some o' =
                unfold read_video in (rw (not_audio, is_video, has) at e) in
              cc) in
          let (opus, h264, rtx) = read_fmtp-ContributesItems o1 m.fmtp in
          (
            inl (ap (λ x. x.rtp_opus_payload) (sym same) ∙ opus),
            inr (items, is_video, has, ap (λ x. x.rtp_h264_payload) (sym same) ∙ h264),
            video-ContributesRtx m o'.rtp_h264_payload o.rtp_h264_rtx_payload
                o'.rtp_h264_rtx_payload is_video
                (subst
                  (λ x.
                    ContributesItems m.fmtp x.rtp_h264_payload o.rtp_h264_rtx_payload
                      x.rtp_h264_rtx_payload)
                  same rtx),
          )
    ]
    | inr other ↦
        let same : o ≡ o' = (let f : some o ≡ some o' = rw (not_audio, other) at e in cc) in
        (
          inl (ap (λ x. x.rtp_opus_payload) (sym same)),
          inl (ap (λ x. x.rtp_h264_payload) (sym same)),
          unfold ContributesRtx in inl (ap (λ x. x.rtp_h264_rtx_payload) (sym same)),
        )
  ]
]

read_fingerprint-some :
    (o o' : Offered) (x : Option FingerprintItem)
    → read_fingerprint o x ≡ some o'
    → (item : FingerprintItem) × (x ≡ some item)
      × ((s : String) × (item.type ≡ some s))
      × ((s : String) × (item.hash ≡ some s))
      × SamePayloads o o'
unfolding read_fingerprint
read_fingerprint-some o o' none e = absurd (let f : none ≡ some o' = e in cc)
read_fingerprint-some o o' (some item) e =
    let (type, hash, same) = read_fingerprint_parts-some o o' item.type item.hash e in
    (item, refl, type, hash, same)

pub read_media-some :
    (m : Media) (o o' : Offered)
    → read_media o m ≡ some o'
    → IsComplete m
      × Contributes "audio" "opus" m o.rtp_opus_payload o'.rtp_opus_payload
      × Contributes "video" "H264" m o.rtp_h264_payload o'.rtp_h264_payload
      × ContributesRtx m o'.rtp_h264_payload o.rtp_h264_rtx_payload o'.rtp_h264_rtx_payload
unfolding read_media
read_media-some m o o' e =
    let (o1, e1, f1) = bind-some (read_setup o m.setup) _ o' e in
    let (o2, e2, f2) = bind-some (read_ice o1 m.ice_ufrag m.ice_pwd) _ o' f1 in
    let (o3, e3, f3) = bind-some (read_fingerprint o2 m.fingerprint) _ o' f2 in
    let ((setup, has_setup), (opus1, h1, x1)) = read_setup-some o o1 m.setup e1 in
    let ((ufrag, has_ufrag), (pwd, has_pwd), (opus2, h2, x2)) =
      read_ice-some o1 o2 m.ice_ufrag m.ice_pwd e2 in
    let (item, has_item, (type, has_type), (hash, has_hash), (opus3, h3, x3)) =
      read_fingerprint-some o2 o3 m.fingerprint e3 in
    let (audio, video, rtx) = read_kind-some m o3 o' f3 in
    (
      record {
        setup = setup;
        has_setup = has_setup;
        ufrag = ufrag;
        has_ufrag = has_ufrag;
        pwd = pwd;
        has_pwd = has_pwd;
        item = item;
        has_fingerprint = has_item;
        hash_name = type;
        has_type = has_type;
        digest = hash;
        has_hash = has_hash;
      },
      subst (λ x. Contributes "audio" "opus" m x o'.rtp_opus_payload) (opus3 ∙ opus2 ∙ opus1) audio,
      subst (λ x. Contributes "video" "H264" m x o'.rtp_h264_payload) (h3 ∙ h2 ∙ h1) video,
      subst (λ x. ContributesRtx m o'.rtp_h264_payload x o'.rtp_h264_rtx_payload) (x3 ∙ x2 ∙ x1)
          rtx,
    )
