-- ===== src/Inform/Samples.antt =====
-- Data for tests: a device, a decoder that knows three replies, and ciphers that hide nothing.
use unifi_emu.Common.{
  ℕ, ◌-◌, ◌≡◌, refl, true, [], ◌∷◌, ◌++◌, some, Text, Bytes, codes, length, take, replicate, Result,
  ok, err, arith, take_exact, length-append, length-replicate, ◌==◌, ◌≢◌, text_eq, unequal,
  if◌then◌else◌,
}
use unifi_emu.Common.Int.{pos}
use unifi_emu.Inform.Descriptor.{Descriptor}
use unifi_emu.Inform.Session.{Session, Response, Decoder, new_session, default_key}
use unifi_emu.Inform.Crypto.{Ciphers, IsInverse}
use unifi_emu.Inform.Payload.{Payload}

abbrev pub sample_desc : Descriptor
sample_desc = record {
  mac = codes "02:00:00:00:00:07";
  serial = codes "020000000007";
  model = codes "U7PG2";
  model_display = codes "UAP-AC-Pro";
  version = codes "6.6.77";
  ip = codes "10.0.0.9";
  hostname = codes "ap";
  type = codes "uap";
  fw_caps = pos 3;
  udapi_version = [];
  udapi_caps = pos 0;
  ports = [];
  radios = [];
  ssids = [];
}

abbrev pub own_key : Text
own_key = codes "00112233445566778899aabbccddeeff"

pub own_key-ne-default_key : own_key ≢ default_key
unfolding text_eq
own_key-ne-default_key = unequal own_key default_key refl

abbrev pub blank_response : Response
blank_response = record {
  type = [];
  cmd = [];
  key = [];
  uri = [];
  interval = pos 0;
  mgmt_cfg = [];
  cfgversion = [];
  version = [];
}

abbrev pub noop_response : Response
noop_response = record blank_response { type = codes "noop"; interval = pos 5 }

abbrev pub setparam_response : Response
setparam_response = record blank_response {
  type = codes "setparam";
  mgmt_cfg = codes "cfgversion=1f\nauthkey=ffeeddccbbaa99887766554433221100\nuse_aes_gcm=true\n";
}

abbrev pub setdefault_response : Response
setdefault_response = record blank_response { type = codes "cmd"; cmd = codes "setdefault" }

abbrev pub respond : Bytes → Result Text Response
respond [] = err (codes "unexpected end of JSON input")
respond (c ∷ b) =
    if c == 1
    then ok noop_response
    else if c == 2
    then ok setparam_response
    else ok setdefault_response

abbrev pub sample_decoder : Decoder
sample_decoder = record {
  response = respond;
  members = λ b. ok ((codes "vap_table", b) ∷ (codes "other", b) ∷ []);
}

abbrev pub sample_session : Session
sample_session = new_session sample_desc (codes "http://10.0.0.1:8080/inform") 0

abbrev pub adopted_session : Session
adopted_session = record sample_session { key = own_key; adopted = true }

abbrev pub plain_ciphers : Ciphers
plain_ciphers = record {
  cbc_encrypt = λ key iv plain. plain;
  cbc_decrypt = λ key iv ct. ct;
  gcm_seal = λ key iv plain aad. plain ++ replicate 16 0;
  gcm_open = λ key iv ct aad. some (take (length ct - 16) ct);
  deflate = λ plain. plain;
  inflate = λ plain. some plain;
  unsnap = λ plain. some plain;
}

cut_tag :
    (plain : Bytes) → take (length (plain ++ replicate 16 0) - 16) (plain ++ replicate 16 0) ≡ plain
cut_tag plain =
    let e : length (plain ++ replicate 16 0) - 16 ≡ length plain =
      omega (arith, length-append plain (replicate 16 0), length-replicate {A = ℕ} 16 0) in
    rw e (take_exact (length plain) plain (replicate 16 0) refl)

pub plain_ciphers-IsInverse : IsInverse plain_ciphers
plain_ciphers-IsInverse = record {
  cbc_inverse = λ key iv plain h. refl;
  cbc_length = λ key iv plain h. refl;
  gcm_inverse = λ key iv plain aad. rw (cut_tag plain);
  gcm_length = λ key iv plain aad. length-append plain (replicate 16 0);
  inflate-deflate = λ plain. refl;
}

-- The payload stands for its JSON text.
abbrev pub sample_marshal : Payload → Bytes
sample_marshal m = 123 ∷ 125 ∷ []
