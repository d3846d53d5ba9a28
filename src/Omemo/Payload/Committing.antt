-- ===== src/Omemo/Payload/Committing.antt =====
-- A payload opens under one message key and in one context.
use Prim.Native.Nat.{bit_or, bit_xor}
use monocles_chat_desktop.Base.{
  ℕ, ◌<◌, ◌≡◌, ◌≢◌, ◌⊎◌, inl, inr, refl, sym, ◌∙◌, true, false, not, [], ◌∷◌, Option, some, Text,
  ltb, length, arith, contains, codes, text_eq, text_eq_iff, Bool-cases, clash,
}
use monocles_chat_desktop.Calls.State.{bare}
use monocles_chat_desktop.Omemo.Bytes.{
  IsBytes, bit_xor-zero, bit_xor_self, bit_xor-lt, bit_or-lt, bit_or-zero,
}
use monocles_chat_desktop.Omemo.ContextBinding.{
  compute_context_binding, recipient_bytes, compute_context_binding-injective,
}
use monocles_chat_desktop.Omemo.Error.{OmemoError, ok, guard-eq-ok, ok_or-eq-ok}
use monocles_chat_desktop.Omemo.Kmac.{
  Sponge, omemo2_key_commitment, derive_payload_keys, absorbed, commit_len, commit_customization,
}
use monocles_chat_desktop.Omemo.Kmac.Unambiguous.{absorbed-injective}
use monocles_chat_desktop.Omemo.Payload.{Aead, AeadLaws, omemo2_seal, omemo2_open, ct_eq, fold_diff}
use monocles_chat_desktop.Uri.Utf8.{Bytes, as_bytes}

fold_diff-zero :
    (d : ℕ) (a b : Bytes)
    → d < 256
    → IsBytes a
    → IsBytes b
    → length a ≡ length b
    → fold_diff d a b ≡ 0
    → (d ≡ 0) × (a ≡ b)
fold_diff-zero d [] [] hd ha hb l e = (e, refl)
fold_diff-zero d [] (y ∷ b) hd ha hb l e = absurd (omega arith)
fold_diff-zero d (x ∷ a) [] hd ha hb l e = absurd (omega arith)
fold_diff-zero d (x ∷ a) (y ∷ b) hd ha hb l e =
    let small = bit_xor-lt x y ha.0 hb.0 in
    let (joint, rest) =
      fold_diff-zero (bit_or d (bit_xor x y)) a b (bit_or-lt d (bit_xor x y) hd small) ha.1 hb.1
        (omega arith) e in
    let (first, same) = bit_or-zero d (bit_xor x y) hd small joint in
    (first, (λ i. bit_xor-zero x y ha.0 hb.0 same i ∷ rest i))

fold_diff_self : (a : Bytes) → IsBytes a → fold_diff 0 a a ≡ 0
fold_diff_self [] h = refl
fold_diff_self (x ∷ a) h = rw (bit_xor_self x h.0) (fold_diff_self a h.1)

-- The comparison in constant time decides equality.
pub ct_eq-eq : (a b : Bytes) → IsBytes a → IsBytes b → ct_eq a b ≡ true → a ≡ b
unfolding ct_eq
ct_eq-eq a b ha hb h = ground (arith, fold_diff-zero 0 a b (omega arith) ha hb)

pub ct_eq_refl : (a : Bytes) → IsBytes a → ct_eq a a ≡ true
unfolding ct_eq
ct_eq_refl a h = ground (arith, fold_diff_self a h)

abbrev opened_under : Sponge → Bytes → Text → Option Text → ℕ → Bytes
opened_under h message_key from to sid =
    omemo2_key_commitment h message_key (compute_context_binding from to sid)

-- What is sealed for a recipient opens to the same text, with the commitment that is published.
pub omemo2_open-omemo2_seal :
    (h : Sponge) (a : Aead) (message_key plaintext : Bytes) (from : Text) (to : Option Text)
    (sid : ℕ) (payload : Bytes)
    → AeadLaws a
    → IsBytes (opened_under h message_key from to sid)
    → omemo2_seal h a message_key plaintext from to sid ≡ ok payload
    → omemo2_open h a message_key payload from to sid
        (some (omemo2_key_commitment h message_key (compute_context_binding from to sid)))
      ≡ ok plaintext
unfolding omemo2_open omemo2_seal
omemo2_open-omemo2_seal h a message_key plaintext from to sid payload laws small e =
    let binding = compute_context_binding from to sid in
    let keys = derive_payload_keys h message_key binding in
    let sealed = ok_or-eq-ok (a.encrypt keys.0 keys.1 binding plaintext) OmemoError.aead e in
    rw (
      laws.tagged keys.0 keys.1 binding plaintext payload sealed,
      ct_eq_refl (opened_under h message_key from to sid) small,
      laws.decrypt-encrypt keys.0 keys.1 binding plaintext payload sealed,
    )

-- An opened payload had a commitment, equal to that of the key in the context.
pub omemo2_open-committed :
    (h : Sponge) (a : Aead) (message_key payload : Bytes) (from : Text) (to : Option Text) (sid : ℕ)
    (commit : Bytes) (plaintext : Bytes)
    → IsBytes commit
    → IsBytes (opened_under h message_key from to sid)
    → omemo2_open h a message_key payload from to sid (some commit) ≡ ok plaintext
    → commit ≡ opened_under h message_key from to sid
unfolding omemo2_open
omemo2_open-committed h a message_key payload from to sid commit plaintext small small' e =
    let (_, e') = guard-eq-ok (not (ltb (length payload) 16)) OmemoError.aead _ e in
    let (c, _) =
      guard-eq-ok (ct_eq commit (opened_under h message_key from to sid)) OmemoError.aead _ e' in
    ct_eq-eq commit (opened_under h message_key from to sid) small small' c

pub text_eq-cases : (s t : Bytes) → (s ≡ t) ⊎ (s ≢ t)
text_eq-cases s t = elim (Bool-cases (text_eq s t)) [
  | inl e ↦ inl ((text_eq_iff s t).0 e)
  | inr n ↦ inr (λ e. clash n ((text_eq_iff s t).1 e))
]

-- Two different inputs on which the hash agrees.
abbrev pub Collision : Sponge → Type 0
Collision h =
    (x : Bytes) × (y : Bytes) × (x ≢ y)
    × (h.cshake256 (codes "KMAC") commit_customization x commit_len
        ≡ h.cshake256 (codes "KMAC") commit_customization y commit_len)

-- A commitment is to one message key and one context: if two payloads open under the same
-- commitment, with message keys of 32 bytes, addresses without NUL and device ids below 2 ^ 32, then
-- the keys, the senders, the recipients and the devices are the same, or cSHAKE256 collides on two inputs.
pub omemo2_open-commits :
    (h : Sponge) (a : Aead) (key key' payload payload' plaintext plaintext' commit : Bytes)
    (from from' : Text) (to to' : Option Text) (sid sid' : ℕ)
    → ((name custom : Text) (x : Bytes) (n : ℕ) → IsBytes (h.cshake256 name custom x n))
    → IsBytes commit
    → length key ≡ 32
    → length key' ≡ 32
    → contains 0 (as_bytes (bare from)) ≡ false
    → contains 0 (as_bytes (bare from')) ≡ false
    → contains 0 (recipient_bytes to) ≡ false
    → contains 0 (recipient_bytes to') ≡ false
    → sid < 4294967296
    → sid' < 4294967296
    → omemo2_open h a key payload from to sid (some commit) ≡ ok plaintext
    → omemo2_open h a key' payload' from' to' sid' (some commit) ≡ ok plaintext'
    → ((key ≡ key')
        × (as_bytes (bare from) ≡ as_bytes (bare from'))
        × (recipient_bytes to ≡ recipient_bytes to')
        × (sid ≡ sid'))
      ⊎ Collision h
unfolding omemo2_key_commitment
omemo2_open-commits h a key key' p p' t t' commit from from' to to' sid sid' bytes c l l' f f' r r'
      s s' e e' =
    let binding = compute_context_binding from to sid in
    let binding' = compute_context_binding from' to' sid' in
    let x = absorbed key binding 64 in
    let y = absorbed key' binding' 64 in
    let agree =
      sym (omemo2_open-committed h a key p from to sid commit t c (bytes _ _ x 64) e)
      ∙ omemo2_open-committed h a key' p' from' to' sid' commit t' c (bytes _ _ y 64) e' in
    elim (text_eq-cases x y) [
      | inr differ ↦ inr (x, y, differ, agree)
      | inl same ↦
          let (keys, bindings) =
            absorbed-injective key key' binding binding' 64 (omega arith) (omega arith) same in
          let (froms, tos, sids) =
            compute_context_binding-injective from from' to to' sid sid' f f' r r' s s' bindings in
          inl (keys, froms, tos, sids)
    ]
