-- ===== src/Omemo/Payload.antt =====
-- `omemo2_seal`, `ct_eq` and `omemo2_open`: the payload of a message.
pub mod Committing
use Prim.Native.Nat.{bit_or, bit_xor}
use monocles_chat_desktop.Base.{
  ℕ, ◌≡◌, Bool, false, List, [], ◌∷◌, Option, none, some, Text, if◌then◌else◌, ◌==◌, not, ltb,
  length,
}
use monocles_chat_desktop.Omemo.ContextBinding.{compute_context_binding}
use monocles_chat_desktop.Omemo.Error.{OmemoError, Result, ok, err, guard, ok_or, ◌>>=◌, ◌>>◌}
use monocles_chat_desktop.Omemo.Kmac.{Sponge, omemo2_key_commitment, derive_payload_keys}
use monocles_chat_desktop.Uri.Utf8.{Bytes}

-- AES-256-GCM of the `aes-gcm` crate: key, nonce, associated data, text. `none` is an error, of
-- the key's length or of the operation.
pub record Aead : Type 0 where
  pub encrypt : Bytes → Bytes → Bytes → Bytes → Option Bytes
  pub decrypt : Bytes → Bytes → Bytes → Bytes → Option Bytes

-- What is documented of it: a tag is appended, and what was sealed opens.
pub record AeadLaws (a : Aead) : Type 0 where
  pub decrypt-encrypt :
      (key nonce aad msg c : Bytes)
      → a.encrypt key nonce aad msg ≡ some c
      → a.decrypt key nonce aad c ≡ some msg
  pub tagged :
      (key nonce aad msg c : Bytes)
      → a.encrypt key nonce aad msg ≡ some c
      → ltb (length c) 16 ≡ false

unfoldable pub omemo2_seal : Sponge → Aead → Bytes → Bytes → Text → Option Text → ℕ → Result Bytes
unfolding derive_payload_keys compute_context_binding
omemo2_seal h a message_key plaintext from to sid =
    let binding = compute_context_binding from to sid in
    let (enc_key, iv) = derive_payload_keys h message_key binding in
    ok_or (a.encrypt enc_key iv binding plaintext) OmemoError.aead

abbrev fold_diff : ℕ → Bytes → Bytes → ℕ
fold_diff diff (x ∷ xs) (y ∷ ys) = fold_diff (bit_or diff (bit_xor x y)) xs ys
fold_diff diff _ _ = diff

unfoldable pub ct_eq : Bytes → Bytes → Bool
ct_eq a b = if not (length a == length b) then false else fold_diff 0 a b == 0

abbrev pub tag_len : ℕ
tag_len = 16

-- `Some(c) if ct_eq(c, &expected)`.
abbrev pub commits : Option Bytes → Bytes → Bool
commits none expected = false
commits (some c) expected = ct_eq c expected

unfoldable pub omemo2_open :
    Sponge → Aead → Bytes → Bytes → Text → Option Text → ℕ → Option Bytes → Result Bytes
unfolding derive_payload_keys compute_context_binding omemo2_key_commitment ct_eq
omemo2_open h a message_key payload from to sid commit = do
  guard (not (ltb (length payload) tag_len)) OmemoError.aead
  let binding = compute_context_binding from to sid
  guard (commits commit (omemo2_key_commitment h message_key binding)) OmemoError.aead
  let keys = derive_payload_keys h message_key binding
  ok_or (a.decrypt keys.0 keys.1 binding payload) OmemoError.aead
