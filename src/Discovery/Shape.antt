-- ===== src/Discovery/Shape.antt =====
-- What `marshal` writes: the list of TLVs that an announcement stands for, one after the other.
use unifi_emu.Common.{
  ℕ, zero, suc, ◌≡◌, refl, sym, ap, ◌∙◌, List, [], ◌∷◌, ◌++◌, Option, none, some, Bytes, length,
  ◌==◌, if◌then◌else◌, ok, arith, append-nil, append_assoc, All, length-drop, Option-cases,
  Bool-cases, inl, inr, ◌≢◌, >>=-eq-ok, fail_if, ==_iff,
}
use unifi_emu.Common.Endian.{u16, put_uint16, put_uint32}
use unifi_emu.Discovery.{
  Announcement, Address, Error, v2, tlv_mac, tlv_macip, tlv_firmware, tlv_uptime, tlv_hostname,
  tlv_platform, tlv_essid, tlv_wmode, tlv_seq, tlv_src_mac, tlv_model, tlv_netmask, to4, put_tlv,
  put_u32, put_text, put_number, put_mac, put_address, put_addresses, put_v2, put_mask, put_netmask,
  put_common, marshal_body, bad_source_mac, bad_mac, version_required,
}

abbrev pub Tlv : Type 0
Tlv = ℕ × Bytes

abbrev pub encode : List Tlv → Bytes
encode [] = []
encode ((t, v) ∷ r) = t ∷ put_uint16 (u16 (length v)) ++ v ++ encode r

pub encode-append : (xs ys : List Tlv) → encode (xs ++ ys) ≡ encode xs ++ encode ys
encode-append [] ys = refl
encode-append ((t, v) ∷ r) ys = simp (encode-append r ys, append_assoc)

-- The IPv4 bytes of an address, none if it has none.
abbrev pub v4 : Bytes → Bytes
v4 ip = elim (to4 ip) [ none ↦ [] | some w ↦ w ]

abbrev pub text_field : ℕ → Bytes → List Tlv
text_field t [] = []
text_field t (c ∷ s) = (t, c ∷ s) ∷ []

abbrev pub number_field : ℕ → ℕ → List Tlv
number_field t zero = []
number_field t (suc v) = (t, put_uint32 (suc v)) ∷ []

abbrev pub mac_field : ℕ → Option Bytes → List Tlv
mac_field t none = []
mac_field t (some m) = (t, m) ∷ []

abbrev pub address_fields : List Address → List Tlv
address_fields [] = []
address_fields (ad ∷ r) = (tlv_macip, ad.mac ++ v4 ad.ip) ∷ address_fields r

abbrev pub mask_field : Option Bytes → List Tlv
mask_field none = []
mask_field (some m) = (tlv_netmask, v4 m) ∷ []

abbrev pub v2_fields : Announcement → List Tlv
v2_fields a =
    if a.version == v2
    then number_field tlv_seq a.seq
      ++ (mac_field tlv_src_mac a.source_mac ++ text_field tlv_model a.model)
    else []

abbrev pub common_fields : Announcement → List Tlv
common_fields a =
    text_field tlv_firmware a.firmware
    ++ (number_field tlv_uptime a.uptime
        ++ (text_field tlv_hostname a.hostname
            ++ (text_field tlv_platform a.platform
                ++ (text_field tlv_essid a.essid ++ number_field tlv_wmode a.wmode))))

abbrev pub fields : Announcement → List Tlv
fields a =
    mac_field tlv_mac a.mac
    ++ (address_fields a.addresses ++ (common_fields a ++ (v2_fields a ++ mask_field a.netmask)))

-- A MAC is absent or has six bytes.
abbrev pub IsMac : Option Bytes → Type 0
IsMac none = Unit
IsMac (some m) = length m ≡ 6

abbrev pub IsAddress : Address → Type 0
IsAddress ad = (length ad.mac ≡ 6) × (to4 ad.ip ≢ none)

abbrev pub IsMask : Option Bytes → Type 0
IsMask none = Unit
IsMask (some m) = to4 m ≢ none

-- What `marshal` asks of an announcement, its total length apart.
pub record IsValid (a : Announcement) : Type 0 where
  pub versioned : a.version ≢ 0
  pub mac_fits : IsMac a.mac
  pub addresses_fit : All IsAddress a.addresses
  pub source_fits : a.version ≡ v2 → IsMac a.source_mac
  pub mask_fits : IsMask a.netmask

pub length-to4 : (ip w : Bytes) → to4 ip ≡ some w → length w ≡ 4
unfolding to4
length-to4 ip w h = ground (arith, length-drop 12 ip)

pub put_tlv_lem : (buf : Bytes) (t : ℕ) (v : Bytes) → put_tlv buf t v ≡ buf ++ encode ((t, v) ∷ [])
unfolding put_tlv
put_tlv_lem buf t v = simp (append-nil, append_assoc)

pub put_text_lem :
    (buf : Bytes) (t : ℕ) (s : Bytes) → put_text buf t s ≡ buf ++ encode (text_field t s)
unfolding put_text
put_text_lem buf t [] = sym (append-nil buf)
put_text_lem buf t (c ∷ s) = put_tlv_lem buf t (c ∷ s)

pub put_number_lem : (buf : Bytes) (t v : ℕ) → put_number buf t v ≡ buf ++ encode (number_field t v)
unfolding put_number put_u32
put_number_lem buf t zero = sym (append-nil buf)
put_number_lem buf t (suc v) = put_tlv_lem buf t (put_uint32 (suc v))

pub put_mac_lem :
    (buf : Bytes) (t : ℕ) (e : Error) (m : Option Bytes)
    → IsMac m
    → put_mac buf t e m ≡ ok (buf ++ encode (mac_field t m))
unfolding put_mac
put_mac_lem buf t e none h = ap ok (sym (append-nil buf))
put_mac_lem buf t e (some m) h = ground (arith, put_tlv_lem buf t m)

pub put_mac-IsMac :
    (buf : Bytes) (t : ℕ) (e : Error) (m : Option Bytes) {b : Bytes}
    → put_mac buf t e m ≡ ok b
    → IsMac m
unfolding put_mac
put_mac-IsMac buf t e none h = tt
put_mac-IsMac buf t e (some m) h = ground arith

put_addresses_cons :
    (buf : Bytes) (ad : Address) (r : List Address) (w : Bytes)
    → length ad.mac ≡ 6
    → to4 ad.ip ≡ some w
    → put_addresses buf (ad ∷ r)
      ≡ put_addresses (buf ++ encode ((tlv_macip, ad.mac ++ v4 ad.ip) ∷ [])) r
unfolding put_addresses put_address
put_addresses_cons buf ad r w h e =
    rw ((==_iff (length ad.mac) 6).1 h)
      (rw (e, put_address) (rw (put_tlv_lem buf tlv_macip (ad.mac ++ w)) (rw (e, v4))))

to4-cases : (ip : Bytes) → to4 ip ≢ none → (w : Bytes) × (to4 ip ≡ some w)
to4-cases ip h = elim (Option-cases (to4 ip)) [ inl e ↦ absurd (h e) | inr p ↦ p ]

pub put_addresses_lem :
    (buf : Bytes) (ads : List Address)
    → All IsAddress ads
    → put_addresses buf ads ≡ ok (buf ++ encode (address_fields ads))
put_addresses_lem buf [] h = unfold put_addresses in ap ok (sym (append-nil buf))
put_addresses_lem buf (ad ∷ r) ((six, v), hr) =
    let (w, e) = to4-cases ad.ip v in
    put_addresses_cons buf ad r w six e
    ∙ put_addresses_lem (buf ++ encode ((tlv_macip, ad.mac ++ v4 ad.ip) ∷ [])) r hr
    ∙ ap ok (simp append_assoc)

put_addresses-fails :
    (buf : Bytes) (ad : Address) (r : List Address) {b : Bytes}
    → put_addresses buf (ad ∷ r) ≡ ok b
    → IsAddress ad × (c : Bytes) × (put_addresses c r ≡ ok b)
unfolding put_addresses put_address
put_addresses-fails buf ad r h = elim (Bool-cases (length ad.mac == 6)) [
  | inl six ↦ elim (Option-cases (to4 ad.ip)) [
    | inl e ↦ cc (rw (six, e) at h)
    | inr (w, e) ↦ (((==_iff _ _).0 six, λ n. cc), _, rw (six, e, put_address) at h)
  ]
  | inr n ↦ cc (rw n at h)
]

pub put_addresses-IsAddress :
    (buf : Bytes) (ads : List Address) {b : Bytes}
    → put_addresses buf ads ≡ ok b
    → All IsAddress ads
put_addresses-IsAddress buf [] h = tt
put_addresses-IsAddress buf (ad ∷ r) h =
    let (v, c, hr) = put_addresses-fails buf ad r h in (v, put_addresses-IsAddress c r hr)

pub put_common_lem :
    (buf : Bytes) (a : Announcement) → put_common buf a ≡ buf ++ encode (common_fields a)
unfolding put_common
put_common_lem buf a = simp (put_text_lem, put_number_lem, encode-append, append_assoc)

pub put_v2_lem :
    (buf : Bytes) (a : Announcement)
    → (a.version ≡ v2 → IsMac a.source_mac)
    → put_v2 buf a ≡ ok (buf ++ encode (v2_fields a))
unfolding put_v2
put_v2_lem buf a h = elim (Bool-cases (a.version == v2)) [
  | inl e ↦
      rw (e, put_mac_lem _ tlv_src_mac bad_source_mac _ (h ((==_iff _ _).0 e)))
        (ap ok (simp (put_text_lem, put_number_lem, encode-append, append_assoc)))
  | inr e ↦ rw e (ap ok (sym (append-nil buf)))
]

pub put_v2-IsMac :
    (buf : Bytes) (a : Announcement) {b : Bytes}
    → put_v2 buf a ≡ ok b
    → a.version ≡ v2
    → IsMac a.source_mac
unfolding put_v2
put_v2-IsMac buf a h e =
    let g = rw ((==_iff a.version v2).1 e) at h in
    let (c, hc, _) =
      >>=-eq-ok (put_mac (put_number buf tlv_seq a.seq) tlv_src_mac bad_source_mac a.source_mac) _
        g in
    put_mac-IsMac _ tlv_src_mac bad_source_mac _ hc

pub put_netmask_lem :
    (buf : Bytes) (m : Option Bytes)
    → IsMask m
    → put_netmask buf m ≡ ok (buf ++ encode (mask_field m))
unfolding put_netmask put_mask
put_netmask_lem buf none h = ap ok (sym (append-nil buf))
put_netmask_lem buf (some m) h =
    let (w, e) = to4-cases m h in ground (arith, put_tlv_lem buf tlv_netmask w)

pub put_netmask-IsMask :
    (buf : Bytes) (m : Option Bytes) {b : Bytes} → put_netmask buf m ≡ ok b → IsMask m
unfolding put_netmask put_mask
put_netmask-IsMask buf none h = tt
put_netmask-IsMask buf (some m) h = λ e. ground arith

-- `marshal_body` succeeds exactly on the valid announcements, and writes their fields in order.
pub marshal_body_lem : (a : Announcement) → IsValid a → marshal_body a ≡ ok (encode (fields a))
unfolding marshal_body
marshal_body_lem a v = ground (
  arith,
  put_mac_lem [] tlv_mac bad_mac a.mac v.mac_fits,
  put_addresses_lem (encode (mac_field tlv_mac a.mac)) a.addresses v.addresses_fit,
  put_common_lem b1 a,
  put_v2_lem (b1 ++ encode (common_fields a)) a v.source_fits,
  put_netmask_lem ((b1 ++ encode (common_fields a)) ++ encode (v2_fields a)) a.netmask v.mask_fits,
  fields_split,
)
  where
    b1 : Bytes
    b1 = encode (mac_field tlv_mac a.mac) ++ encode (address_fields a.addresses)

    fields_split :
        encode (fields a)
        ≡ ((b1 ++ encode (common_fields a)) ++ encode (v2_fields a))
          ++ encode (mask_field a.netmask)
    fields_split = simp (encode-append, append_assoc)

pub marshal_body-IsValid : (a : Announcement) {b : Bytes} → marshal_body a ≡ ok b → IsValid a
unfolding marshal_body
marshal_body-IsValid a h =
    let (_, h0, g0) = >>=-eq-ok (fail_if (a.version == 0) version_required) _ h in
    let (b0, h1, g1) = >>=-eq-ok (put_mac [] tlv_mac bad_mac a.mac) _ g0 in
    let (b1, h2, g2) = >>=-eq-ok (put_addresses b0 a.addresses) _ g1 in
    let (b2, h3, g3) = >>=-eq-ok (put_v2 (put_common b1 a) a) _ g2 in
    record {
      versioned = λ e. ground (arith, h0);
      mac_fits = put_mac-IsMac [] tlv_mac bad_mac a.mac h1;
      addresses_fit = put_addresses-IsAddress b0 a.addresses h2;
      source_fits = put_v2-IsMac (put_common b1 a) a h3;
      mask_fits = put_netmask-IsMask b2 a.netmask g3;
    }
