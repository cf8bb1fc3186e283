-- ===== src/Discovery/Fold.antt =====
-- discovery/packet.go: the `switch` of `parse` over the fields that `marshal` writes.
use mathlib.Core.Option
use unifi_emu.Common.{
  ℕ, zero, suc, ◌≡◌, refl, sym, ap, ◌∙◌, List, [], ◌∷◌, ◌++◌, map, Option, none, some, Bytes,
  length, ◌==◌, if◌then◌else◌, arith, All, Bool-cases, inl, inr, append_assoc, append-nil,
  length-append, take_exact, drop_exact, ==_iff, ◌≢◌, Option-cases,
}
use unifi_emu.Common.Endian.{IsU32, uint32-put_uint32}
use unifi_emu.Discovery.{
  Announcement, Address, v2, apply_tlv, blank, to4, tlv_mac, tlv_macip, tlv_firmware, tlv_uptime,
  tlv_hostname, tlv_platform, tlv_essid, tlv_wmode, tlv_seq, tlv_src_mac, tlv_model,
}
use unifi_emu.Discovery.Shape.{
  Tlv, v4, text_field, number_field, mac_field, address_fields, mask_field, v2_fields,
  common_fields, fields, IsMac, IsAddress, IsMask, IsValid, length-to4,
}
use unifi_emu.Discovery.Loop.{apply_all, apply_all-append}

abbrev to_v4 : Address → Address
to_v4 ad = record { mac = ad.mac; ip = v4 ad.ip }

-- What a receiver can know: addresses as IPv4, and the fields of version 2 only in version 2.
abbrev pub normalize : Announcement → Announcement
normalize a = record a {
  addresses = map to_v4 a.addresses;
  seq = if a.version == v2 then a.seq else 0;
  source_mac = if a.version == v2 then a.source_mac else none;
  model = if a.version == v2 then a.model else [];
  netmask = Option.map v4 a.netmask;
}

-- The numbers of an announcement are uint32s.
pub record HasU32s (a : Announcement) : Type 0 where
  pub uptime_fits : IsU32 a.uptime
  pub wmode_fits : IsU32 a.wmode
  pub seq_fits : IsU32 a.seq

module _ (r : Announcement) where
  apply_mac :
      (m : Option Bytes)
      → r.mac ≡ none
      → IsMac m
      → apply_all r (mac_field tlv_mac m) ≡ record r { mac = m }
  unfolding apply_tlv
  apply_mac none e h = ground arith
  apply_mac (some m) e h = ground arith

  apply_src_mac :
      (m : Option Bytes)
      → r.source_mac ≡ none
      → IsMac m
      → apply_all r (mac_field tlv_src_mac m) ≡ record r { source_mac = m }
  unfolding apply_tlv
  apply_src_mac none e h = ground arith
  apply_src_mac (some m) e h = ground arith

  apply_firmware :
      (s : Bytes)
      → r.firmware ≡ []
      → apply_all r (text_field tlv_firmware s) ≡ record r { firmware = s }
  unfolding apply_tlv
  apply_firmware [] e = ground arith
  apply_firmware (c ∷ s) e = refl

  apply_hostname :
      (s : Bytes)
      → r.hostname ≡ []
      → apply_all r (text_field tlv_hostname s) ≡ record r { hostname = s }
  unfolding apply_tlv
  apply_hostname [] e = ground arith
  apply_hostname (c ∷ s) e = refl

  apply_platform :
      (s : Bytes)
      → r.platform ≡ []
      → apply_all r (text_field tlv_platform s) ≡ record r { platform = s }
  unfolding apply_tlv
  apply_platform [] e = ground arith
  apply_platform (c ∷ s) e = refl

  apply_essid :
      (s : Bytes) → r.essid ≡ [] → apply_all r (text_field tlv_essid s) ≡ record r { essid = s }
  unfolding apply_tlv
  apply_essid [] e = ground arith
  apply_essid (c ∷ s) e = refl

  apply_model :
      (s : Bytes) → r.model ≡ [] → apply_all r (text_field tlv_model s) ≡ record r { model = s }
  unfolding apply_tlv
  apply_model [] e = ground arith
  apply_model (c ∷ s) e = refl

  apply_uptime :
      (v : ℕ)
      → r.uptime ≡ 0
      → IsU32 v
      → apply_all r (number_field tlv_uptime v) ≡ record r { uptime = v }
  unfolding apply_tlv
  apply_uptime zero e h = ground arith
  apply_uptime (suc v) e h = ap (λ t. record r { uptime = t }) (uint32-put_uint32 (suc v) h)

  apply_wmode :
      (v : ℕ)
      → r.wmode ≡ 0
      → IsU32 v
      → apply_all r (number_field tlv_wmode v) ≡ record r { wmode = v }
  unfolding apply_tlv
  apply_wmode zero e h = ground arith
  apply_wmode (suc v) e h = ap (λ t. record r { wmode = t }) (uint32-put_uint32 (suc v) h)

  apply_seq :
      (v : ℕ) → r.seq ≡ 0 → IsU32 v → apply_all r (number_field tlv_seq v) ≡ record r { seq = v }
  unfolding apply_tlv
  apply_seq zero e h = ground arith
  apply_seq (suc v) e h = ap (λ t. record r { seq = t }) (uint32-put_uint32 (suc v) h)

v4-length : (ip : Bytes) → to4 ip ≢ none → length (v4 ip) ≡ 4
v4-length ip h = elim (Option-cases (to4 ip)) [
  | inl e ↦ absurd (h e)
  | inr (w, e) ↦ rw (e, v4) (length-to4 ip w e)
]

apply_mask :
    (r : Announcement) (m : Option Bytes)
    → r.netmask ≡ none
    → IsMask m
    → apply_all r (mask_field m) ≡ record r { netmask = Option.map v4 m }
unfolding apply_tlv
apply_mask r none e h = ground arith
apply_mask r (some m) e h = rw ((==_iff (length (v4 m)) 4).1 (v4-length m h))

apply_address :
    (r : Announcement) (ad : Address)
    → IsAddress ad
    → apply_tlv r tlv_macip (ad.mac ++ v4 ad.ip)
      ≡ record r { addresses = r.addresses ++ (to_v4 ad ∷ []) }
unfolding apply_tlv
apply_address r ad (six, h) =
    let ten : length (ad.mac ++ v4 ad.ip) ≡ 10 =
      omega (arith, length-append ad.mac (v4 ad.ip), v4-length ad.ip h) in
    rw (
      (==_iff (length (ad.mac ++ v4 ad.ip)) 10).1 ten,
      take_exact 6 ad.mac (v4 ad.ip) six,
      drop_exact 6 ad.mac (v4 ad.ip) six,
    )

apply_addresses :
    (ads : List Address) (r : Announcement)
    → All IsAddress ads
    → apply_all r (address_fields ads) ≡ record r { addresses = r.addresses ++ map to_v4 ads }
apply_addresses [] r h = ap (λ t. record r { addresses = t }) (sym (append-nil r.addresses))
apply_addresses (ad ∷ ads) r (h, hs) =
    ap (λ q. apply_all q (address_fields ads)) (apply_address r ad h)
    ∙ apply_addresses ads (record r { addresses = r.addresses ++ (to_v4 ad ∷ []) }) hs
    ∙ ap (λ t. record r { addresses = t })
        (append_assoc r.addresses (to_v4 ad ∷ []) (map to_v4 ads))

apply_then :
    (r : Announcement) {r' q : Announcement} (xs ys : List Tlv)
    → apply_all r xs ≡ r'
    → apply_all r' ys ≡ q
    → apply_all r (xs ++ ys) ≡ q
apply_then r xs ys e f = rw (apply_all-append, e) f

apply_common :
    (r a : Announcement)
    → HasU32s a
    → r.firmware ≡ []
    → r.uptime ≡ 0
    → r.hostname ≡ []
    → r.platform ≡ []
    → r.essid ≡ []
    → r.wmode ≡ 0
    → apply_all r (common_fields a) ≡ record r {
      firmware = a.firmware;
      uptime = a.uptime;
      hostname = a.hostname;
      platform = a.platform;
      essid = a.essid;
      wmode = a.wmode;
    }
apply_common r a w e1 e2 e3 e4 e5 e6 =
    apply_then r (text_field tlv_firmware a.firmware) _ (apply_firmware r a.firmware e1) (
      apply_then _ (number_field tlv_uptime a.uptime) _ (apply_uptime _ a.uptime e2 w.uptime_fits) (
        apply_then _ (text_field tlv_hostname a.hostname) _ (apply_hostname _ a.hostname e3) (
          apply_then _ (text_field tlv_platform a.platform) _ (apply_platform _ a.platform e4) (
            apply_then _ (text_field tlv_essid a.essid) _ (apply_essid _ a.essid e5)
              (apply_wmode _ a.wmode e6 w.wmode_fits)))))

apply_v2 :
    (r a : Announcement)
    → HasU32s a
    → (a.version ≡ v2 → IsMac a.source_mac)
    → r.seq ≡ 0
    → r.source_mac ≡ none
    → r.model ≡ []
    → apply_all r (v2_fields a) ≡ record r {
      seq = if a.version == v2 then a.seq else 0;
      source_mac = if a.version == v2 then a.source_mac else none;
      model = if a.version == v2 then a.model else [];
    }
apply_v2 r a w h e1 e2 e3 = elim (Bool-cases (a.version == v2)) [
  | inl e ↦ rw e (
      apply_then r (number_field tlv_seq a.seq) _ (apply_seq r a.seq e1 w.seq_fits) (
        apply_then _ (mac_field tlv_src_mac a.source_mac) _
          (apply_src_mac _ a.source_mac e2 (h ((==_iff _ _).0 e))) (apply_model _ a.model e3)))
  | inr e ↦ rw e (ground arith)
]

pub apply_all-fields :
    (a : Announcement)
    → IsValid a
    → HasU32s a
    → apply_all (blank a.version a.command) (fields a) ≡ normalize a
apply_all-fields a v w =
    apply_then (blank a.version a.command) (mac_field tlv_mac a.mac) _
      (apply_mac _ a.mac refl v.mac_fits)
      (apply_then _ (address_fields a.addresses) _ (apply_addresses a.addresses _ v.addresses_fit) (
        apply_then _ (common_fields a) _ (apply_common _ a w refl refl refl refl refl refl) (
          apply_then _ (v2_fields a) _ (apply_v2 _ a w v.source_fits refl refl refl)
            (apply_mask _ a.netmask refl v.mask_fits))))
