-- ===== src/Uri/Fingerprint.antt =====
-- The entries of a verification URI, and `normalize_fingerprint`.
use monocles_chat_desktop.Base.{
  ℕ, ◌≡◌, refl, Bool, true, not, ◌&&◌, ◌||◌, List, [], ◌∷◌, Option, none, some, map, ◌==◌,
  if◌then◌else◌, Text, codes, within, length, all, keep, lower, is_whitespace, strip_prefix, arith,
}
use monocles_chat_desktop.Uri.Decimal.{ℤ}
use monocles_chat_desktop.Uri.Utf8.{Bytes}

pub data FingerprintKind : Type 0 where
  omemo omemo_pq : FingerprintKind

abbrev pub omemo_param : Text
omemo_param = codes "omemo-sid-"

abbrev pub omemo_pq_param : Text
omemo_pq_param = codes "omemo-pq-sid-"

pub record UriFingerprint : Type 0 where
  pub kind : FingerprintKind
  pub device_id : ℤ
  pub hex : Text

pub record ParsedUri : Type 0 where
  pub jid : Text
  pub fingerprints : List UriFingerprint

-- The key without libsignal's type prefix.
abbrev pub bare_key : Bytes → Bytes
bare_key [] = []
bare_key (b ∷ bs) = if length (b ∷ bs) == 33 && b == 5 then bs else b ∷ bs

-- `hex_encode` is the `hex` crate's `encode`.
unfoldable pub from_identity_key : (Bytes → Text) → FingerprintKind → ℤ → Bytes → UriFingerprint
from_identity_key hex_encode kind device_id identity_key = record {
  kind = kind;
  device_id = device_id;
  hex = hex_encode (bare_key identity_key);
}

unfoldable pub all_hex : ParsedUri → List Text
all_hex u = map (λ f. f.hex) u.fingerprints

abbrev pub is_hexdigit : ℕ → Bool
is_hexdigit c = within b'0' b'9' c || within b'a' b'f' c || within b'A' b'F' c

-- The last match of `normalize_fingerprint`, on the lower-case text without spaces.
unfoldable pub strip_type_byte : Text → Option Text
unfolding strip_prefix
strip_type_byte hex =
    if length hex == 64
    then some hex
    else if length hex == 66
    then strip_prefix (codes "05") hex
    else none

unfoldable pub squeeze : Text → Text
unfolding is_whitespace lower
squeeze value = map lower (keep (λ c. not (is_whitespace c)) value)

unfoldable pub normalize_fingerprint : Text → Option Text
unfolding squeeze strip_type_byte
normalize_fingerprint value =
    if not (all is_hexdigit (squeeze value)) then none else strip_type_byte (squeeze value)

-- The form that the URIs use: 64 lower-case hexadecimal digits.
abbrev pub is_lower_hex : ℕ → Bool
is_lower_hex c = within b'0' b'9' c || within b'a' b'f' c

abbrev pub IsFingerprint : Text → Type 0
IsFingerprint h = (all is_lower_hex h ≡ true) × (length h ≡ 64)

squeeze-lower_hex : (h : Text) → all is_lower_hex h ≡ true → squeeze h ≡ h
unfolding squeeze
squeeze-lower_hex [] a = refl
squeeze-lower_hex (c ∷ h) a = ground (arith, squeeze-lower_hex h)

all-hexdigit : (h : Text) → all is_lower_hex h ≡ true → all is_hexdigit h ≡ true
all-hexdigit [] a = refl
all-hexdigit (c ∷ h) a = ground (arith, all-hexdigit h)

squeeze-all : (v : Text) → all is_hexdigit (squeeze v) ≡ true → all is_lower_hex (squeeze v) ≡ true
unfolding squeeze
squeeze-all [] a = refl
squeeze-all (c ∷ v) a = ground (arith, squeeze-all v)

strip_type_byte-IsFingerprint :
    (s : Text) {h : Text} → all is_lower_hex s ≡ true → strip_type_byte s ≡ some h → IsFingerprint h
unfolding strip_type_byte
strip_type_byte-IsFingerprint [] a e = ground arith
strip_type_byte-IsFingerprint (x ∷ []) a e = ground arith
strip_type_byte-IsFingerprint (x ∷ y ∷ s) a e = (ground arith, ground arith)

-- What `normalize_fingerprint` accepts of any text is 64 lower-case hexadecimal digits.
pub normalize_fingerprint-IsFingerprint :
    (v : Text) {h : Text} → normalize_fingerprint v ≡ some h → IsFingerprint h
unfolding normalize_fingerprint
normalize_fingerprint-IsFingerprint v e =
    ground (arith, squeeze-all v, strip_type_byte-IsFingerprint (squeeze v))

-- A text of 64 lower-case hexadecimal digits is normalised to itself.
pub normalize_fingerprint_self : (h : Text) → IsFingerprint h → normalize_fingerprint h ≡ some h
normalize_fingerprint_self h f =
    unfold normalize_fingerprint strip_type_byte in
    rw (squeeze-lower_hex h f.0, all-hexdigit h f.0) (ground arith)
