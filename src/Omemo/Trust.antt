-- ===== src/Omemo/Trust.antt =====
-- `IdentityStore` of crates/mxc-omemo/src/store.rs: what libsignal asks and saves of the identity
-- of a device, and to which devices the client encrypts.
pub mod Vouched
use monocles_chat_desktop.Base.{
  ℕ, Bool, true, false, not, ◌||◌, Option, none, some, ◌==◌, if◌then◌else◌, map_or, text_eq,
}
use monocles_chat_desktop.Base.Tables.{address_key, row, upsert}
use monocles_chat_desktop.Omemo.Database.{
  Address, Database, OmemoIdentity, omemo_identity, save_omemo_identity,
}
use monocles_chat_desktop.Uri.Utf8.{Bytes}

pub data IdentityChange : Type 0 where
  new_or_unchanged replaced_existing : IdentityChange

unfoldable pub save_identity : Address → Bytes → Database → Database × IdentityChange
unfolding save_omemo_identity text_eq row
save_identity addr serialized db =
    let replaced =
      map_or (omemo_identity addr db) false (λ old. not (text_eq old.identity_key serialized)) in
    (
      save_omemo_identity addr serialized db,
      if replaced then IdentityChange.replaced_existing else IdentityChange.new_or_unchanged,
    )

abbrev pub trust_untrusted : ℕ
trust_untrusted = 2

unfoldable pub is_trusted_identity : Address → Bytes → Database → Bool
unfolding text_eq row
is_trusted_identity addr serialized db = map_or (omemo_identity addr db) true (λ r.
    if not (text_eq r.identity_key serialized) then true else not (r.trust == trust_untrusted))

-- `trust == 1 || trust == 3`.
abbrev pub eligible : ℕ → Bool
eligible trust = trust == 1 || trust == 3

-- Whether the client encrypts to a device.
unfoldable pub trusted : Address → Database → Bool
unfolding row
trusted addr db = map_or (omemo_identity addr db) false (λ r. eligible r.trust)
