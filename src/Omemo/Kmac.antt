-- ===== src/Omemo/Kmac.antt =====
-- The encodings of NIST SP 800-185, `kmac256`, and what is derived from a message key with it.
pub mod Unambiguous
use monocles_chat_desktop.Base.{
  ℕ, zero, suc, ◌+◌, ◌-◌, ◌*◌, ◌/◌, [], ◌∷◌, ◌++◌, Text, codes, unwrap_or, length, take, drop,
}
use monocles_chat_desktop.Omemo.Bytes.{be_bytes, first_nonzero}
use monocles_chat_desktop.Uri.Utf8.{Bytes}

unfoldable pub left_encode : ℕ → Bytes
unfolding be_bytes
left_encode v =
    let bytes = be_bytes 8 v in
    let first = unwrap_or (first_nonzero bytes) 7 in (8 - first) ∷ drop first bytes

unfoldable pub right_encode : ℕ → Bytes
unfolding be_bytes
right_encode v =
    let bytes = be_bytes 8 v in
    let first = unwrap_or (first_nonzero bytes) 7 in drop first bytes ++ ((8 - first) ∷ [])

unfoldable pub encode_string : Bytes → Bytes
unfolding left_encode
encode_string s = left_encode (length s * 8) ++ s

-- `resize(n, 0)` of a vector that is not longer.
abbrev pub zeros : ℕ → Bytes
zeros zero = []
zeros (suc n) = 0 ∷ zeros n

-- `a.div_ceil(b)`.
abbrev pub div_ceil : ℕ → ℕ → ℕ
div_ceil a b = (a + (b - 1)) / b

unfoldable pub bytepad : Bytes → ℕ → Bytes
unfolding left_encode
bytepad x w =
    let z = left_encode w ++ x in
    let padded_len = div_ceil (length (left_encode w) + length x) w * w in
    z ++ zeros (padded_len - length z)

abbrev pub kmac256_rate : ℕ
kmac256_rate = 136

-- cSHAKE256 of the `sha3` crate: the function name, the customization, what is absorbed, and how
-- many bytes are squeezed out.
pub record Sponge : Type 0 where
  pub cshake256 : Text → Text → Bytes → ℕ → Bytes

-- What `kmac256` absorbs.
abbrev pub absorbed : Bytes → Bytes → ℕ → Bytes
absorbed key input len =
    bytepad (encode_string key) kmac256_rate ++ (input ++ right_encode (len * 8))

unfoldable pub kmac256 : Sponge → Bytes → Bytes → Text → ℕ → Bytes
unfolding bytepad encode_string right_encode
kmac256 h key input customization len =
    h.cshake256 (codes "KMAC") customization (absorbed key input len) len

abbrev pub payload_customization : Text
payload_customization = codes "monocles:omemo2:payload:v3"

abbrev pub commit_customization : Text
commit_customization = codes "monocles:omemo2:key-commitment:v3"

abbrev pub msg_key_len : ℕ
msg_key_len = 32

abbrev pub iv_len : ℕ
iv_len = 12

abbrev pub kdf_output_len : ℕ
kdf_output_len = msg_key_len + iv_len

abbrev pub commit_len : ℕ
commit_len = 64

unfoldable pub omemo2_key_commitment : Sponge → Bytes → Bytes → Bytes
unfolding kmac256
omemo2_key_commitment h message_key binding =
    kmac256 h message_key binding commit_customization commit_len

-- The AES key and the nonce.
unfoldable pub derive_payload_keys : Sponge → Bytes → Bytes → Bytes × Bytes
unfolding kmac256
derive_payload_keys h message_key binding =
    let okm = kmac256 h message_key binding payload_customization kdf_output_len in
    (take msg_key_len okm, take iv_len (drop msg_key_len okm))
