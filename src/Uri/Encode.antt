-- ===== src/Uri/Encode.antt =====
-- What `percent_decode` makes of an encoded JID.
use monocles_chat_desktop.Base.{
  ℕ, ◌/◌, ◌%◌, ◌≡◌, refl, true, false, ◌⊎◌, inl, inr, [], ◌∷◌, some, Text, all, returned, arith,
  Bool-cases,
}
use monocles_chat_desktop.Uri.Percent.{
  decode_bytes, decode_bytes_plain, encode_jid, escape_at, hex_digit, is_char_boundary, must_escape,
  percent_decode, push,
}
use monocles_chat_desktop.Uri.Utf8.{Bytes, as_bytes-ascii, from_utf8_lossy-ascii, is_ascii}

must_escape-cases :
    (c : ℕ)
    → must_escape c ≡ true
    → (c ≡ b'?') ⊎ ((c ≡ b';') ⊎ ((c ≡ b'#') ⊎ ((c ≡ b'%') ⊎ (c ≡ b' '))))
must_escape-cases c h = ground arith

-- What holds of the five characters holds of every character that is escaped.
must_escape-elim {ℓ} :
    (P : ℕ → Type ℓ)
    → P b'?'
    → P b';'
    → P b'#'
    → P b'%'
    → P b' '
    → (c : ℕ) → must_escape c ≡ true
    → P c
must_escape-elim P q s n p b c h = elim (must_escape-cases c h) [
  | inl e ↦ rw e q
  | inr (inl e) ↦ rw e s
  | inr (inr (inl e)) ↦ rw e n
  | inr (inr (inr (inl e))) ↦ rw e p
  | inr (inr (inr (inr e))) ↦ rw e b
]

escape_at-digits :
    (c : ℕ) (rest : Bytes)
    → must_escape c ≡ true
    → is_char_boundary rest ≡ true
    → escape_at (hex_digit (c / 16)) (hex_digit (c % 16)) rest ≡ returned (some c)
unfolding escape_at
escape_at-digits c rest h b =
    must_escape-elim
      (λ n. escape_at (hex_digit (n / 16)) (hex_digit (n % 16)) rest ≡ returned (some n))
      (rw b refl) (rw b refl) (rw b refl) (rw b refl) (rw b refl) c h

decode_bytes_escape :
    (c : ℕ) (rest : Bytes)
    → must_escape c ≡ true
    → is_char_boundary rest ≡ true
    → decode_bytes (b'%' ∷ hex_digit (c / 16) ∷ hex_digit (c % 16) ∷ rest)
      ≡ push c (decode_bytes rest)
unfolding decode_bytes
decode_bytes_escape c rest h b = rw (escape_at-digits c rest h b) refl

encode_jid-ascii : (s : Text) → all is_ascii s ≡ true → all is_ascii (encode_jid s) ≡ true
unfolding encode_jid
encode_jid-ascii [] h = refl
encode_jid-ascii (c ∷ s) h = elim (Bool-cases (must_escape c)) [
  | inl e ↦
      let rest = encode_jid-ascii s (ground arith) in
      must_escape-elim (λ n. all is_ascii (encode_jid (n ∷ s)) ≡ true) rest rest rest rest rest c e
  | inr e ↦ ground (arith, encode_jid-ascii s)
]

boundary-ascii : (s : Text) → all is_ascii s ≡ true → is_char_boundary s ≡ true
unfolding is_char_boundary
boundary-ascii [] h = refl
boundary-ascii (c ∷ s) h = ground arith

encode_jid_escaped :
    (c : ℕ) (s : Text)
    → must_escape c ≡ true
    → encode_jid (c ∷ s) ≡ b'%' ∷ hex_digit (c / 16) ∷ hex_digit (c % 16) ∷ encode_jid s
unfolding encode_jid
encode_jid_escaped c s h =
    must_escape-elim
      (λ n. encode_jid (n ∷ s) ≡ b'%' ∷ hex_digit (n / 16) ∷ hex_digit (n % 16) ∷ encode_jid s) refl
      refl refl refl refl c h

encode_jid_plain :
    (c : ℕ) (s : Text) → must_escape c ≡ false → encode_jid (c ∷ s) ≡ c ∷ encode_jid s
unfolding encode_jid
encode_jid_plain c s h = rw h refl

empty_jid : decode_bytes (encode_jid []) ≡ returned []
unfolding decode_bytes encode_jid
empty_jid = refl

decode_bytes-encode_jid :
    (s : Text) → all is_ascii s ≡ true → decode_bytes (encode_jid s) ≡ returned s
decode_bytes-encode_jid [] h = empty_jid
decode_bytes-encode_jid (c ∷ s) h = elim (Bool-cases (must_escape c)) [
  | inl e ↦
      rw
        (
          encode_jid_escaped c s e,
          decode_bytes_escape c (encode_jid s) e
              (boundary-ascii (encode_jid s) (encode_jid-ascii s (ground arith))),
          decode_bytes-encode_jid s (ground arith),
        )
        refl
  | inr e ↦
      rw
        (
          encode_jid_plain c s e,
          decode_bytes_plain c (encode_jid s) (ground arith),
          decode_bytes-encode_jid s (ground arith),
        )
        refl
]

-- An ASCII JID is decoded from its encoded form as it was.
pub percent_decode-encode_jid :
    (jid : Text) → all is_ascii jid ≡ true → percent_decode (encode_jid jid) ≡ returned jid
unfolding percent_decode
percent_decode-encode_jid jid h =
    rw
      (
        as_bytes-ascii (encode_jid jid) (encode_jid-ascii jid h),
        decode_bytes-encode_jid jid h,
        from_utf8_lossy-ascii jid h,
      )
      refl
