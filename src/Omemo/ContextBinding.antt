-- ===== src/Omemo/ContextBinding.antt =====
-- `compute_context_binding`: the salt and the associated data of a message's payload.
use monocles_chat_desktop.Base.{
  ℕ, ◌+◌, ◌*◌, ◌/◌, ◌%◌, ◌<◌, false, ◌≡◌, [], ◌∷◌, ◌++◌, Option, Text, codes, contains, map_or,
  arith, ◌∙◌, ap, sym,
}
use monocles_chat_desktop.Calls.State.{bare}
use monocles_chat_desktop.Uri.Utf8.{as_bytes}

-- `u32::to_be_bytes`.
abbrev pub to_be_bytes : ℕ → Text
to_be_bytes n = n / 16777216 % 256 ∷ n / 65536 % 256 ∷ n / 256 % 256 ∷ n % 256 ∷ []

-- The bytes of the recipient's bare JID, or of nothing.
abbrev pub recipient_bytes : Option Text → Text
recipient_bytes to = as_bytes (map_or to [] bare)

-- What follows the mark and its NUL.
unfoldable after_mark : Text → Text
after_mark (_ ∷ _ ∷ _ ∷ _ ∷ _ ∷ _ ∷ _ ∷ rest) = rest
after_mark _ = []

unfoldable pub compute_context_binding : Text → Option Text → ℕ → Text
unfolding bare as_bytes
compute_context_binding from to sid =
    codes "OMEMO2"
    ++ (0 ∷ (as_bytes (bare from) ++ (0 ∷ (recipient_bytes to ++ (0 ∷ to_be_bytes sid)))))

-- A zero ends what holds none.
zero_unique :
    (a b r s : Text)
    → contains 0 a ≡ false
    → contains 0 b ≡ false
    → a ++ (0 ∷ r) ≡ b ++ (0 ∷ s)
    → (a ≡ b) × (r ≡ s)
unfolding contains
zero_unique [] [] r s h h' e = ground arith
zero_unique [] (y ∷ b) r s h h' e = ground arith
zero_unique (x ∷ a) [] r s h h' e = ground arith
zero_unique (x ∷ a) (y ∷ b) r s h h' e = ground (arith, zero_unique a b r s)

-- The number of four bytes.
unfoldable from_be_bytes : Text → ℕ
from_be_bytes (a ∷ b ∷ c ∷ d ∷ []) = 16777216 * a + 65536 * b + 256 * c + d
from_be_bytes _ = 0

from_be_bytes-to_be_bytes : (n : ℕ) → n < 4294967296 → from_be_bytes (to_be_bytes n) ≡ n
unfolding from_be_bytes
from_be_bytes-to_be_bytes n h = omega arith

pub to_be_bytes-injective :
    (n m : ℕ) → n < 4294967296 → m < 4294967296 → to_be_bytes n ≡ to_be_bytes m → n ≡ m
to_be_bytes-injective n m h h' e =
    sym (from_be_bytes-to_be_bytes n h) ∙ ap from_be_bytes e ∙ from_be_bytes-to_be_bytes m h'

-- Where no JID holds a NUL, equal bindings bind the same: the bytes of the sender's bare JID,
-- those of the recipient's, and the sender's device agree. So a payload that is sealed for one
-- sender, recipient and device opens under no other's binding by its associated data.
pub compute_context_binding-injective :
    (from from' : Text) (to to' : Option Text) (sid sid' : ℕ)
    → contains 0 (as_bytes (bare from)) ≡ false
    → contains 0 (as_bytes (bare from')) ≡ false
    → contains 0 (recipient_bytes to) ≡ false
    → contains 0 (recipient_bytes to') ≡ false
    → sid < 4294967296
    → sid' < 4294967296
    → compute_context_binding from to sid ≡ compute_context_binding from' to' sid'
    → (as_bytes (bare from) ≡ as_bytes (bare from'))
      × (recipient_bytes to ≡ recipient_bytes to')
      × (sid ≡ sid')
unfolding compute_context_binding after_mark
compute_context_binding-injective from from' to to' sid sid' f f' t t' s s' e =
    let (froms, rest) = zero_unique _ _ _ _ f f' (ap after_mark e) in
    let (tos, bytes) = zero_unique _ _ _ _ t t' rest in
    (froms, tos, to_be_bytes-injective sid sid' s s' bytes)
