-- ===== src/Omemo/Database.antt =====
-- The OMEMO tables of one account, crates/mxc-store/src/omemo.rs: the rows of what peers have, and
-- of our own pre-keys, with the queries on them.
use monocles_chat_desktop.Base.{
  ℕ, Bool, true, false, not, ◌&&◌, List, [], ◌∷◌, ◌++◌, Option, none, some, Text, codes, ltb, ◌==◌,
  if◌then◌else◌, length, any, keep, is_some, map_or, text_eq,
}
use monocles_chat_desktop.Base.Tables.{
  Table, nat_key, address_key, texts_key, row, delete, upsert, update,
}
use monocles_chat_desktop.Uri.Utf8.{Bytes}

-- A JID and a device id.
abbrev pub Address : Type 0
Address = Text × ℕ

-- `OmemoIdentity`; the device id is in the key. Trust: 0 undecided, 1 trusted, 2 untrusted,
-- 3 verified.
pub record OmemoIdentity : Type 0 where
  pub identity_key : Bytes
  pub trust : ℕ
  pub active : Bool

pub record KyberRow : Type 0 where
  pub bytes : Bytes
  pub is_last_resort : Bool
  pub used : Bool

-- A session that was begun with a last-resort key: its id, that of the signed pre-key, the base
-- key.
pub record Initiation : Type 0 where
  pub kyber_id : ℕ
  pub spk_id : ℕ
  pub base : Bytes

pub record Database : Type 0 where
  pub identities : Table Address OmemoIdentity
  pub sessions : Table Address Bytes
  -- By JID and classical fingerprint.
  pub pins : Table (Text × Text) Bytes
  pub prekeys : Table ℕ Bytes
  pub signed_prekeys : Table ℕ Bytes
  pub kyber_prekeys : Table ℕ KyberRow
  pub initiations : List Initiation
  -- The setting `auto_trust_new_keys`.
  pub auto_trust : Option Text

abbrev pub auto_trust_new_keys : Database → Bool
auto_trust_new_keys db = map_or db.auto_trust true (λ v. not (text_eq v (codes "0")))

abbrev pub set_auto_trust_new_keys : Bool → Database → Database
set_auto_trust_new_keys on db = record db {
  auto_trust = some (if on then codes "1" else codes "0");
}

-- Peers.

abbrev pub get_pinned_omemo2_pq_identity : Text → Text → Database → Option Bytes
get_pinned_omemo2_pq_identity jid fingerprint db = row (jid, fingerprint) db.pins

abbrev pub pin_omemo2_pq_identity : Text → Text → Bytes → Database → Database
pin_omemo2_pq_identity jid fingerprint pq db = record db {
  pins = upsert (jid, fingerprint) pq (λ _. pq) db.pins;
}

abbrev pub reset_omemo2_peer_state : Database → Database
reset_omemo2_peer_state db = record db { sessions = []; identities = []; pins = [] }

abbrev pub reset_omemo2_own_state : Database → Database
reset_omemo2_own_state db = record db {
  prekeys = [];
  signed_prekeys = [];
  kyber_prekeys = [];
  initiations = [];
}

-- The change of a known device's row.
abbrev pub resaved : Bytes → OmemoIdentity → OmemoIdentity
resaved identity_key old = record {
  identity_key = identity_key;
  trust = if text_eq old.identity_key identity_key then old.trust else 0;
  active = true;
}

unfoldable pub save_omemo_identity : Address → Bytes → Database → Database
unfolding upsert text_eq
save_omemo_identity addr identity_key db =
    let new_trust = if auto_trust_new_keys db then 1 else 0 in
    record db {
      identities =
          upsert addr (record { identity_key = identity_key; trust = new_trust; active = true })
            (resaved identity_key) db.identities;
    }

abbrev pub omemo_identity : Address → Database → Option OmemoIdentity
omemo_identity addr db = row addr db.identities

unfoldable pub set_omemo_trust : Address → ℕ → Database → Database
unfolding update
set_omemo_trust addr trust db = record db {
  identities = update addr (λ r. record r { trust = trust }) db.identities;
}

abbrev pub load_omemo_session : Address → Database → Option Bytes
load_omemo_session addr db = row addr db.sessions

abbrev pub store_omemo_session : Address → Bytes → Database → Database
store_omemo_session addr bytes db = record db {
  sessions = upsert addr bytes (λ _. bytes) db.sessions;
}

-- Pre-keys. `ORDER BY` the id.

unfoldable pub place : {V : Type 0} → ℕ × V → Table ℕ V → Table ℕ V
place p [] = p ∷ []
place (i, v) ((j, w) ∷ t) = if ltb j i then (j, w) ∷ place (i, v) t else (i, v) ∷ (j, w) ∷ t

unfoldable pub by_id : {V : Type 0} → Table ℕ V → Table ℕ V
unfolding place
by_id [] = []
by_id (p ∷ t) = place p (by_id t)

-- `COALESCE(MAX(id), 0)`.
unfoldable pub max_id : {V : Type 0} → Table ℕ V → ℕ
max_id [] = 0
max_id ((i, v) ∷ t) = let m = max_id t in if ltb m i then i else m

-- `ORDER BY id DESC LIMIT 1`.
unfoldable pub newest : {V : Type 0} → Table ℕ V → Option (ℕ × V)
newest [] = none
newest ((i, v) ∷ t) =
    let rest = newest t in
    elim rest [ none ↦ some (i, v) | some (j, w) ↦ if ltb i j then some (j, w) else some (i, v) ]

abbrev pub load_prekey : ℕ → Database → Option Bytes
load_prekey id db = row id db.prekeys

abbrev pub store_prekey : ℕ → Bytes → Database → Database
store_prekey id bytes db = record db { prekeys = upsert id bytes (λ _. bytes) db.prekeys }

abbrev pub remove_prekey : ℕ → Database → Database
remove_prekey id db = record db { prekeys = delete id db.prekeys }

abbrev pub count_prekeys : Database → ℕ
count_prekeys db = length db.prekeys

abbrev pub list_prekeys : Database → Table ℕ Bytes
list_prekeys db = by_id db.prekeys

abbrev pub max_prekey_id : Database → ℕ
max_prekey_id db = max_id db.prekeys

abbrev pub load_signed_prekey : ℕ → Database → Option Bytes
load_signed_prekey id db = row id db.signed_prekeys

abbrev pub newest_signed_prekey : Database → Option (ℕ × Bytes)
newest_signed_prekey db = newest db.signed_prekeys

abbrev pub store_signed_prekey : ℕ → Bytes → Database → Database
store_signed_prekey id bytes db = record db {
  signed_prekeys = upsert id bytes (λ _. bytes) db.signed_prekeys;
}

abbrev pub store_kyber_prekey : ℕ → Bytes → Bool → Database → Database
store_kyber_prekey id bytes is_last_resort db = record db {
  kyber_prekeys =
      upsert id (record { bytes = bytes; is_last_resort = is_last_resort; used = false })
        (λ r. record r { bytes = bytes; is_last_resort = is_last_resort }) db.kyber_prekeys;
}

unfoldable pub mark_kyber_prekey_used : ℕ → Database → Database
unfolding update
mark_kyber_prekey_used id db = record db {
  kyber_prekeys = update id (λ r. record r { used = true }) db.kyber_prekeys;
}

-- `used = 0 AND is_last_resort = 0`.
abbrev pub available : ℕ × KyberRow → Bool
available (id, r) = not r.used && not r.is_last_resort

abbrev pub available_kyber_prekeys : Database → Table ℕ KyberRow
available_kyber_prekeys db = by_id (keep available db.kyber_prekeys)

abbrev pub last_resort_kyber : Database → Option (ℕ × KyberRow)
last_resort_kyber db = newest (keep (λ p. p.1.is_last_resort) db.kyber_prekeys)

abbrev pub delete_kyber_prekey : ℕ → Database → Database
delete_kyber_prekey id db = record db { kyber_prekeys = delete id db.kyber_prekeys }

abbrev pub load_kyber_prekey_meta : ℕ → Database → Option KyberRow
load_kyber_prekey_meta id db = row id db.kyber_prekeys

unfoldable pub same_initiation : Initiation → Initiation → Bool
unfolding text_eq
same_initiation i j = i.kyber_id == j.kyber_id && i.spk_id == j.spk_id && text_eq i.base j.base

abbrev pub kyber_last_resort_session_seen : Initiation → Database → Bool
kyber_last_resort_session_seen i db = any (same_initiation i) db.initiations

-- `INSERT OR IGNORE`.
unfoldable pub record_kyber_last_resort_session : Initiation → Database → Database
unfolding same_initiation
record_kyber_last_resort_session i db =
    if kyber_last_resort_session_seen i db
    then db
    else record db { initiations = db.initiations ++ (i ∷ []) }

unfoldable pub prune_orphaned_kyber_last_resort_sessions : Database → Database
prune_orphaned_kyber_last_resort_sessions db = record db {
  initiations = keep (λ i. is_some (row i.kyber_id db.kyber_prekeys)) db.initiations;
}

abbrev pub max_kyber_prekey_id : Database → ℕ
max_kyber_prekey_id db = max_id db.kyber_prekeys
