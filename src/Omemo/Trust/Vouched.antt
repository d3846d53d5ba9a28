-- ===== src/Omemo/Trust/Vouched.antt =====
-- A device is encrypted to only under a key that was vouched for.
use mathlib.Core.Path.{subst}
use monocles_chat_desktop.Base.{
  ℕ, ◌≡◌, refl, sym, ap, ◌∙◌, Bool, true, false, ◌&&◌, List, [], ◌∷◌, ◌++◌, Option, none, some, inl,
  inr, if◌then◌else◌, any, map_or, text_eq, text_eq_iff, text_eq_refl, Bool-cases, arith,
}
use monocles_chat_desktop.Base.Tables.{
  address_key, row, row-upsert, row-update, same_refl, map_option,
}
use monocles_chat_desktop.Omemo.Database.{
  Address, Database, OmemoIdentity, omemo_identity, save_omemo_identity, set_omemo_trust, resaved,
  auto_trust_new_keys, set_auto_trust_new_keys,
}
use monocles_chat_desktop.Omemo.Trust.{save_identity, eligible, trusted}
use monocles_chat_desktop.Uri.Utf8.{Bytes}

-- What happens to the identities: a session brings a key, the user decides on a device, or turns
-- the trust in new keys on or off.
pub data Change : Type 0 where
  brought : Address → Bytes → Change
  decided : Address → ℕ → Change
  switched : Bool → Change

abbrev pub apply : Change → Database → Database
apply (brought addr key) db = (save_identity addr key db).0
apply (decided addr trust) db = set_omemo_trust addr trust db
apply (switched on) db = set_auto_trust_new_keys on db

abbrev pub Vouch : Type 0
Vouch = Address × Bytes

-- Who is vouched for by a change: the key that a device has when the user trusts it, and the key
-- of a device not seen before, while new keys are trusted.
abbrev pub vouches : Change → Database → List Vouch
vouches (brought addr key) db =
    map_or (omemo_identity addr db) (if auto_trust_new_keys db then (addr, key) ∷ [] else [])
      (λ _. [])
vouches (decided addr trust) db =
    map_or (omemo_identity addr db) []
      (λ r. if eligible trust then (addr, r.identity_key) ∷ [] else [])
vouches (switched on) db = []

abbrev pub knows : List Vouch → Address → Bytes → Bool
knows log addr key = any (λ v. address_key.same v.0 addr && text_eq v.1 key) log

abbrev pub run : List Change → Database → List Vouch → Database × List Vouch
run [] db log = (db, log)
run (c ∷ cs) db log = run cs (apply c db) (vouches c db ++ log)

-- Each device that is encrypted to has a key that is vouched for.
abbrev pub IsVouched : Database → List Vouch → Type 0
IsVouched db log =
    (addr : Address) (r : OmemoIdentity)
    → row addr db.identities ≡ some r
    → eligible r.trust ≡ true
    → knows log addr r.identity_key ≡ true

knows-append :
    (new log : List Vouch) (addr : Address) (key : Bytes)
    → knows log addr key ≡ true
    → knows (new ++ log) addr key ≡ true
knows-append [] log addr key h = h
knows-append (v ∷ new) log addr key h = ground (arith, knows-append new log addr key)

knows_first :
    (log : List Vouch) (addr : Address) (key : Bytes) → knows ((addr, key) ∷ log) addr key ≡ true
knows_first log addr key = rw (same_refl addr, text_eq_refl key)

abbrev fresh : Bool → Bytes → OmemoIdentity
fresh auto key = record { identity_key = key; trust = if auto then 1 else 0; active = true }

-- The row that is saved for a device, by what is known of it.
saved-known :
    (o : Option OmemoIdentity) (auto : Bool) (addr : Address) (key : Bytes) (log : List Vouch)
    (r : OmemoIdentity)
    → map_or o (fresh auto key) (resaved key) ≡ r
    → eligible r.trust ≡ true
    → ((old : OmemoIdentity)
        → o ≡ some old
        → eligible old.trust ≡ true
        → knows log addr old.identity_key ≡ true)
    → knows (map_or o (if auto then (addr, key) ∷ [] else []) (λ _. []) ++ log) addr r.identity_key
      ≡ true
saved-known none true addr key log r e ok old =
    ap (λ (s : OmemoIdentity). knows ((addr, key) ∷ log) addr s.identity_key) (sym e)
    ∙ knows_first log addr key
saved-known none false addr key log r e ok old =
    absurd (ground (arith, ap (λ (s : OmemoIdentity). s.trust) e))
saved-known (some o) auto addr key log r e ok old = elim (Bool-cases (text_eq o.identity_key key)) [
  | inl same ↦
      let kept : o.trust ≡ r.trust =
        ap (λ (b : Bool). if b then o.trust else 0) (sym same)
        ∙ ap (λ (s : OmemoIdentity). s.trust) e in
      let held : o.identity_key ≡ r.identity_key =
        (text_eq_iff o.identity_key key).0 same ∙ ap (λ (s : OmemoIdentity). s.identity_key) e in
      ap (knows log addr) (sym held) ∙ old o refl (ap eligible kept ∙ ok)
  | inr differ ↦
      let dropped : 0 ≡ r.trust =
        ap (λ (b : Bool). if b then o.trust else 0) (sym differ)
        ∙ ap (λ (s : OmemoIdentity). s.trust) e in
      absurd (ground arith)
]

some_injective : {A : Type 0} {a b : A} → some a ≡ some b → a ≡ b
some_injective h = cc

brought-IsVouched :
    (addr : Address) (key : Bytes) (db : Database) (log : List Vouch)
    → IsVouched db log
    → IsVouched (apply (brought addr key) db) (vouches (brought addr key) db ++ log)
unfolding save_identity save_omemo_identity
brought-IsVouched addr key db log v other r h ok =
    let auto = auto_trust_new_keys db in
    let o = row addr db.identities in
    let read = sym (row-upsert addr other (fresh auto key) (resaved key) db.identities) ∙ h in
    elim (Bool-cases (address_key.same addr other)) [
      | inl same ↦
          let here = (address_key.same_iff addr other).0 same in
          let saved = some_injective (rw same at read) in
          subst (λ a. knows (vouches (brought addr key) db ++ log) a r.identity_key ≡ true) here
            (saved-known o auto addr key log r saved ok (v addr))
      | inr apart ↦
          knows-append (vouches (brought addr key) db) log other r.identity_key
            (v other r (rw apart at read) ok)
    ]

decided-known :
    (o : Option OmemoIdentity) (trust : ℕ) (addr : Address) (log : List Vouch) (r : OmemoIdentity)
    → map_option (λ s. record s { trust = trust }) o ≡ some r
    → eligible r.trust ≡ true
    → knows
        (map_or o [] (λ s. if eligible trust then (addr, s.identity_key) ∷ [] else []) ++ log)
        addr
        r.identity_key
      ≡ true
decided-known none trust addr log r e ok = cc
decided-known (some o) trust addr log r e ok =
    let given : trust ≡ r.trust = ap (λ (s : OmemoIdentity). s.trust) (some_injective e) in
    let held : o.identity_key ≡ r.identity_key =
      ap (λ (s : OmemoIdentity). s.identity_key) (some_injective e) in
    rw (ap eligible given ∙ ok) (
      ap (λ k. knows ((addr, o.identity_key) ∷ log) addr k) (sym held)
      ∙ knows_first log addr o.identity_key)

decided-IsVouched :
    (addr : Address) (trust : ℕ) (db : Database) (log : List Vouch)
    → IsVouched db log
    → IsVouched (apply (decided addr trust) db) (vouches (decided addr trust) db ++ log)
unfolding set_omemo_trust
decided-IsVouched addr trust db log v other r h ok =
    let read = sym (row-update addr other (λ s. record s { trust = trust }) db.identities) ∙ h in
    elim (Bool-cases (address_key.same addr other)) [
      | inl same ↦
          let here = (address_key.same_iff addr other).0 same in
          subst (λ a. knows (vouches (decided addr trust) db ++ log) a r.identity_key ≡ true) here
            (decided-known (row addr db.identities) trust addr log r
              (ap (λ a. map_option (λ s. record s { trust = trust }) (row a db.identities)) here
                ∙ rw same at read)
              ok)
      | inr apart ↦
          knows-append (vouches (decided addr trust) db) log other r.identity_key
            (v other r (rw apart at read) ok)
    ]

run-IsVouched :
    (cs : List Change) (db : Database) (log : List Vouch)
    → IsVouched db log
    → IsVouched (run cs db log).0 (run cs db log).1
run-IsVouched [] db log v = v
run-IsVouched (brought addr key ∷ cs) db log v =
    run-IsVouched cs (apply (brought addr key) db) (vouches (brought addr key) db ++ log)
      (brought-IsVouched addr key db log v)
run-IsVouched (decided addr trust ∷ cs) db log v =
    run-IsVouched cs (apply (decided addr trust) db) (vouches (decided addr trust) db ++ log)
      (decided-IsVouched addr trust db log v)
run-IsVouched (switched on ∷ cs) db log v = run-IsVouched cs (apply (switched on) db) log v

empty-IsVouched : (db : Database) → db.identities ≡ [] → IsVouched db []
unfolding row
empty-IsVouched db e addr r h ok = none_case (ap (row addr) (sym e) ∙ h)
  where
    none_case : none ≡ some r → knows [] addr r.identity_key ≡ true
    none_case h' = cc

trusted-row :
    (o : Option OmemoIdentity)
    → map_or o false (λ r. eligible r.trust) ≡ true
    → (r : OmemoIdentity) × (o ≡ some r) × (eligible r.trust ≡ true)
trusted-row none h = cc
trusted-row (some r) h = (r, refl, h)

-- From an empty table, whatever keys sessions bring and whatever the user decides, a device that
-- is encrypted to has a key that was vouched for: the user trusted the device while it had this
-- very key, or it was the first key of the device while new keys were trusted.
pub run-trusted :
    (cs : List Change) (db : Database) (addr : Address)
    → db.identities ≡ []
    → trusted addr (run cs db []).0 ≡ true
    → (r : OmemoIdentity) × (omemo_identity addr (run cs db []).0 ≡ some r)
      × (knows (run cs db []).1 addr r.identity_key ≡ true)
unfolding trusted
run-trusted cs db addr e h =
    let (r, found, ok) = trusted-row (row addr (run cs db []).0.identities) h in
    (r, found, run-IsVouched cs db [] (empty-IsVouched db e) addr r found ok)
