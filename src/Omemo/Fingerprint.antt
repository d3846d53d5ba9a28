-- ===== src/Omemo/Fingerprint.antt =====
-- `fingerprint` and `hybrid_fingerprint` of crates/mxc-omemo/src/lib.rs: what the user compares.
use monocles_chat_desktop.Base.{
  ℕ, zero, suc, ◌<◌, ◌≡◌, ◌≢◌, ◌⊎◌, inl, inr, refl, ◌&&◌, [], ◌∷◌, ◌++◌, Text, codes, if◌then◌else◌,
  ◌==◌, length,
}
use monocles_chat_desktop.Omemo.ContextBinding.{to_be_bytes, to_be_bytes-injective}
use monocles_chat_desktop.Omemo.Establish.{starts_djb, rest_of}
use monocles_chat_desktop.Omemo.Kmac.Unambiguous.{split_same}
use monocles_chat_desktop.Omemo.Payload.Committing.{text_eq-cases}
use monocles_chat_desktop.Uri.Utf8.{Bytes}

-- `chunks(8)`, joined by spaces.
unfoldable grouped : ℕ → Text → Text
grouped n [] = []
grouped zero (c ∷ cs) = b' ' ∷ c ∷ grouped 7 cs
grouped (suc n) (c ∷ cs) = c ∷ grouped n cs

unfoldable pub fingerprint : (Bytes → Text) → Bytes → Text
unfolding grouped
fingerprint hex bytes =
    grouped 8 (hex (if length bytes == 33 && starts_djb bytes then rest_of bytes else bytes))

abbrev pub hybrid_fp_label : Text
hybrid_fp_label = codes "monocles:omemo2:ik:v2"

-- What is hashed.
abbrev pub hybrid_input : Bytes → Bytes → Bytes
hybrid_input identity_key pq_identity_key =
    hybrid_fp_label
    ++ (to_be_bytes (length identity_key)
        ++ (identity_key ++ (to_be_bytes (length pq_identity_key) ++ pq_identity_key)))

unfoldable pub hybrid_fingerprint : (Bytes → Text) → (Bytes → Bytes) → Bytes → Bytes → Text
hybrid_fingerprint hex sha3_512 identity_key pq_identity_key =
    hex (sha3_512 (hybrid_input identity_key pq_identity_key))

unfoldable pub hybrid_fingerprint_display : (Bytes → Text) → (Bytes → Bytes) → Bytes → Bytes → Text
unfolding grouped hybrid_fingerprint
hybrid_fingerprint_display hex sha3_512 identity_key pq_identity_key =
    grouped 8 (hybrid_fingerprint hex sha3_512 identity_key pq_identity_key)

hybrid_input-injective :
    (ik ik' pq pq' : Bytes)
    → length ik < 4294967296
    → length ik' < 4294967296
    → hybrid_input ik pq ≡ hybrid_input ik' pq'
    → (ik ≡ ik') × (pq ≡ pq')
hybrid_input-injective ik ik' pq pq' h h' e =
    let size = to_be_bytes (length ik) in
    let size' = to_be_bytes (length ik') in
    let psize = to_be_bytes (length pq) in
    let psize' = to_be_bytes (length pq') in
    let (_, sized) =
      split_same hybrid_fp_label hybrid_fp_label (size ++ (ik ++ (psize ++ pq)))
        (size' ++ (ik' ++ (psize' ++ pq'))) refl e in
    let (sizes, rest) =
      split_same size size' (ik ++ (psize ++ pq)) (ik' ++ (psize' ++ pq')) refl sized in
    let (iks, tail) =
      split_same ik ik' (psize ++ pq) (psize' ++ pq')
        (to_be_bytes-injective (length ik) (length ik') h h' sizes) rest in
    (iks, (split_same psize psize' pq pq' refl tail).1)

-- Equal hybrid fingerprints are those of the same two identity keys, or SHA3-512 collides on two
-- inputs.
pub hybrid_fingerprint-commits :
    (hex : Bytes → Text) (sha3_512 : Bytes → Bytes) (ik ik' pq pq' : Bytes)
    → ((x y : Bytes) → hex x ≡ hex y → x ≡ y)
    → length ik < 4294967296
    → length ik' < 4294967296
    → hybrid_fingerprint hex sha3_512 ik pq ≡ hybrid_fingerprint hex sha3_512 ik' pq'
    → ((ik ≡ ik') × (pq ≡ pq')) ⊎ ((x : Bytes) × (y : Bytes) × (x ≢ y) × (sha3_512 x ≡ sha3_512 y))
unfolding hybrid_fingerprint
hybrid_fingerprint-commits hex sha3_512 ik ik' pq pq' hex_injective h h' e =
    let x = hybrid_input ik pq in
    let y = hybrid_input ik' pq' in
    elim (text_eq-cases x y) [
      | inl same ↦ inl (hybrid_input-injective ik ik' pq pq' h h' same)
      | inr differ ↦ inr (x, y, differ, hex_injective (sha3_512 x) (sha3_512 y) e)
    ]
