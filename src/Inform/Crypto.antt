-- ===== src/Inform/Crypto.antt =====
-- inform/crypto.go: authkeys, PKCS padding, and the ciphers behind it.
-- AES, GCM, zlib and snappy are parameters: the code only calls them.
use unifi_emu.Common.{
  ℕ, ◌+◌, ◌-◌, ◌%◌, ◌≡◌, Bool, true, false, ◌&&◌, ◌||◌, [], ◌∷◌, ◌++◌, Option, none, some, Bytes,
  Text, length, take, drop, replicate, ltb, ◌==◌, if◌then◌else◌, Result, ok, err, ◌>>◌, fail_if,
}
use unifi_emu.Common.Mac.{xtoi2, cons_byte}

-- CryptBlocks in the two directions, Seal and Open, and the compressors; keys and IVs come first.
pub record Ciphers : Type 0 where
  pub cbc_encrypt : Bytes → Bytes → Bytes → Bytes
  pub cbc_decrypt : Bytes → Bytes → Bytes → Bytes
  pub gcm_seal : Bytes → Bytes → Bytes → Bytes → Bytes
  pub gcm_open : Bytes → Bytes → Bytes → Bytes → Option Bytes
  pub deflate : Bytes → Bytes
  pub inflate : Bytes → Option Bytes
  pub unsnap : Bytes → Option Bytes

-- What the libraries document: decryption and decompression undo encryption and compression, CBC
-- keeps the length of whole blocks, and Seal appends a tag of 16 bytes.
pub record IsInverse (c : Ciphers) : Type 0 where
  pub cbc_inverse :
      (key iv plain : Bytes)
      → length plain % 16 ≡ 0
      → c.cbc_decrypt key iv (c.cbc_encrypt key iv plain) ≡ plain
  pub cbc_length :
      (key iv plain : Bytes)
      → length plain % 16 ≡ 0
      → length (c.cbc_encrypt key iv plain) ≡ length plain
  pub gcm_inverse :
      (key iv plain aad : Bytes) → c.gcm_open key iv (c.gcm_seal key iv plain aad) aad ≡ some plain
  pub gcm_length :
      (key iv plain aad : Bytes) → length (c.gcm_seal key iv plain aad) ≡ length plain + 16
  pub inflate-deflate : (plain : Bytes) → c.inflate (c.deflate plain) ≡ some plain

pub data Error : Type 0 where
  bad_key bad_key_size not_block_aligned bad_padding gcm_failed : Error
  too_short bad_magic bad_length snappy_failed zlib_failed : Error

-- hex.DecodeString.
unfoldable pub decode_hex : Text → Option Bytes
decode_hex [] = some []
decode_hex (a ∷ []) = none
decode_hex (a ∷ b ∷ s) = cons_byte (xtoi2 a b) (decode_hex s)

abbrev pub sixteen_bytes : Option Bytes → Result Error Bytes
sixteen_bytes none = err bad_key
sixteen_bytes (some b) = if length b == 16 then ok b else err bad_key

unfoldable pub parse_key : Text → Result Error Bytes
parse_key hex_key = sixteen_bytes (decode_hex hex_key)

-- aes.NewCipher takes keys of 16, 24 and 32 bytes.
unfoldable pub check_key : Bytes → Result Error (Unit {0})
check_key key =
    if length key == 16 || length key == 24 || length key == 32 then ok tt else err bad_key_size

abbrev pub block_size : ℕ
block_size = 16

-- The plain text with 1 to 16 bytes of padding, each the number of them.
unfoldable pub pad : Bytes → Bytes
pad plain = let n = block_size - length plain % block_size in plain ++ replicate n n

unfoldable pub all_equal : ℕ → Bytes → Bool
all_equal n [] = true
all_equal n (b ∷ bs) = b == n && all_equal n bs

-- `int(out[len(out)-1])`, of a slice that is not empty.
abbrev pub last_byte : Bytes → ℕ
last_byte [] = 0
last_byte (b ∷ []) = b
last_byte (b ∷ c ∷ bs) = last_byte (c ∷ bs)

unfoldable pub unpad : Bytes → Result Error Bytes
unfolding all_equal
unpad out = do
  let n = last_byte out
  fail_if (n == 0 || ltb block_size n || ltb (length out) n) bad_padding
  if all_equal n (drop (length out - n) out)
      then ok (take (length out - n) out)
      else err bad_padding

abbrev pub or_gcm_failed : Option Bytes → Result Error Bytes
or_gcm_failed none = err gcm_failed
or_gcm_failed (some plain) = ok plain

module _ (c : Ciphers) where
  unfoldable pub encrypt_cbc : Bytes → Bytes → Bytes → Result Error Bytes
  encrypt_cbc key iv plain = do check_key key; ok (c.cbc_encrypt key iv (pad plain))

  unfoldable pub decrypt_cbc : Bytes → Bytes → Bytes → Result Error Bytes
  decrypt_cbc key iv ct = do
    check_key key
    fail_if (length ct == 0 || (if length ct % block_size == 0 then false else true))
        not_block_aligned
    unpad (c.cbc_decrypt key iv ct)

  unfoldable pub encrypt_gcm : Bytes → Bytes → Bytes → Bytes → Result Error Bytes
  encrypt_gcm key iv aad plain = do check_key key; ok (c.gcm_seal key iv plain aad)

  unfoldable pub decrypt_gcm : Bytes → Bytes → Bytes → Bytes → Result Error Bytes
  decrypt_gcm key iv aad ct = do check_key key; or_gcm_failed (c.gcm_open key iv ct aad)
