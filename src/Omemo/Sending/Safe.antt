-- ===== src/Omemo/Sending/Safe.antt =====
-- What is sent is encrypted to devices that may read it, and to all of them.
use mathlib.Core.Path.{subst}
use monocles_chat_desktop.Base.{
  ◌≡◌, ◌⊎◌, inl, inr, refl, sym, ap, ◌∙◌, Bool, true, false, not, ◌&&◌, List, [], ◌∷◌, ◌++◌, Option,
  Text, map, if◌then◌else◌, All, All-append, is_empty, eq_ignore_case,
}
use monocles_chat_desktop.Dom.{Dom}
use monocles_chat_desktop.Omemo.Database.{Address, Database}
use monocles_chat_desktop.Omemo.Devices.{State, Peers, sessions_for}
use monocles_chat_desktop.Omemo.Devices.Usable.{
  SignalLaws, Keeps-trans, Usable, All-Usable-Keeps, Found, sessions_for-Found,
}
use monocles_chat_desktop.Omemo.Error.{Result, ok, err}
use monocles_chat_desktop.Omemo.Sending.{
  WrappedKey, EncryptedMessage, Sealing, after_wrap, wrap_all, finished, sealed, encrypt,
  build_encrypted, Sent, no_device, failed, encrypted, recipient_addrs, targets, note_to_self,
  sent_as, encrypt_for_recipients,
}
use monocles_chat_desktop.Omemo.Sending.Targets.{IsTarget, targets-IsTarget}
use monocles_chat_desktop.Uri.Utf8.{Bytes}

-- The device is one of the recipients', or another of our own.
module _ (d : Dom) (w : Peers d) (laws : SignalLaws w.signal) where
  joined-Found :
      (st : State) (here rest : List Address × State)
      → Found d w laws st.db here
      → Found d w laws here.1.db rest
      → Found d w laws st.db (here.0 ++ rest.0, rest.1)
  joined-Found st here rest (kept, first) (kept', later) = (
    Keeps-trans st.db here.1.db rest.1.db kept kept',
    All-append (Usable rest.1.db) here.0 rest.0
        (All-Usable-Keeps here.1.db rest.1.db here.0 kept' first) later,
  )

  one-Found :
      (jid : Text) (st : State) (b : Bool)
      → Found d w laws st.db (if b then ([], st) else sessions_for d w jid st)
  one-Found jid st true = (λ c h. (refl, refl), tt)
  one-Found jid st false = sessions_for-Found d w laws jid st

  recipient_addrs-Found :
      (jids : List Text) (st : State) → Found d w laws st.db (recipient_addrs d w jids st)
  unfolding recipient_addrs
  recipient_addrs-Found [] st = (λ c h. (refl, refl), tt)
  recipient_addrs-Found (jid ∷ jids) st =
      let here = if eq_ignore_case jid w.own then ([], st) else sessions_for d w jid st in
      let rest = recipient_addrs d w jids here.1 in
      joined-Found st here rest (one-Found jid st (eq_ignore_case jid w.own))
        (recipient_addrs-Found jids here.1)

  targets-Found :
      (recipients : List Text) (st : State)
      → Found d w laws st.db ((targets d w recipients st).1, (targets d w recipients st).2)
  unfolding targets
  targets-Found recipients st =
      let theirs = recipient_addrs d w recipients st in
      joined-Found st theirs (sessions_for d w w.own theirs.1) (recipient_addrs-Found recipients st)
        (sessions_for-Found d w laws w.own theirs.1)

abbrev addresses_of : Result (List WrappedKey) → List Address
addresses_of (ok keys) = map (λ k. k.address) keys
addresses_of (err e) = []

abbrev enc_of : Result EncryptedMessage × Database → List Address
enc_of (ok enc, db) = map (λ k. k.address) enc.keys
enc_of (err e, db) = []

-- Each key of a message is for one of the devices, in their order.
abbrev Covers : List Address → Result EncryptedMessage → Type 0
Covers rs (ok enc) = map (λ k. k.address) enc.keys ≡ rs
Covers rs (err e) = Unit

module _ (x : Sealing) where
  after_wrap-addresses :
      (r : Address) (rs : List Address) (out : Result (Bytes × Bool) × Database)
      (rest : Result (List WrappedKey) × Database) {keys : List WrappedKey}
      → ((ks : List WrappedKey) → rest.0 ≡ ok ks → map (λ k. k.address) ks ≡ rs)
      → (after_wrap r out rest).0 ≡ ok keys
      → map (λ k. k.address) keys ≡ r ∷ rs
  after_wrap-addresses r rs (err e, db) rest ih h = cc
  after_wrap-addresses r rs (ok ct, db) (err e, db') ih h = cc
  after_wrap-addresses r rs (ok ct, db) (ok ks, db') ih h =
      sym (ap addresses_of h) ∙ ap (λ a. r ∷ a) (ih ks refl)

  wrap_all-addresses :
      (own : Address) (rs : List Address) (db : Database) {keys : List WrappedKey}
      → (wrap_all x own rs db).0 ≡ ok keys
      → map (λ k. k.address) keys ≡ rs
  unfolding wrap_all
  wrap_all-addresses own [] db h = sym (ap addresses_of h)
  wrap_all-addresses own (r ∷ rs) db h =
      let out = x.message_encrypt r own x.message_key db in
      after_wrap-addresses r rs out (wrap_all x own rs out.1)
        (λ ks e. wrap_all-addresses own rs out.1 {keys = ks} e) h

  finished-Covers :
      (rs : List Address) (payload commit : Bytes) (out : Result (List WrappedKey) × Database)
      → ((keys : List WrappedKey) → out.0 ≡ ok keys → map (λ k. k.address) keys ≡ rs)
      → Covers rs (finished x payload commit out).0
  finished-Covers rs payload commit (ok keys, db) h = h keys refl
  finished-Covers rs payload commit (err e, db) h = tt

  sealed-Covers :
      (own : Address) (rs : List Address) (commit : Bytes) (db : Database) (m : Result Bytes)
      → Covers rs (sealed x own rs commit db m).0
  sealed-Covers own rs commit db (err e) = tt
  sealed-Covers own rs commit db (ok payload) =
      finished-Covers rs payload commit (wrap_all x own rs db)
        (λ keys e. wrap_all-addresses own rs db e)

  encrypt-Covers :
      (own : Address) (rs : List Address) (to : Option Text) (plaintext : Bytes) (db : Database)
      → Covers rs (encrypt x own rs to plaintext db).0
  unfolding encrypt
  encrypt-Covers own rs to plaintext db = sealed-Covers own rs _ db _

module _ (d : Dom) (x : Sealing) (w : Peers d) (laws : SignalLaws w.signal) where
  -- What holds of what is sent to the recipients.
  abbrev pub Right : List Text → State → Sent d.Element → Type 0
  Right recipients st no_device =
      (is_empty (targets d w recipients st).0 ≡ true) × (note_to_self d w recipients ≡ false)
  Right recipients st (failed e) = Unit
  Right recipients st (encrypted el) =
      (enc : EncryptedMessage) × (el ≡ build_encrypted d x.encode enc w.our_device)
      × (map (λ k. k.address) enc.keys ≡ (targets d w recipients st).1)
      × All (Usable (targets d w recipients st).2.db) (map (λ k. k.address) enc.keys)
      × All (IsTarget d w (w.own ∷ recipients)) (map (λ k. k.address) enc.keys)
      × ((is_empty (targets d w recipients st).0 ≡ false) ⊎ (note_to_self d w recipients ≡ true))

  sent_as-Right :
      (recipients : List Text) (st : State) (m : Result EncryptedMessage × Database)
      → Covers (targets d w recipients st).1 m.0
      → ((is_empty (targets d w recipients st).0 ≡ false) ⊎ (note_to_self d w recipients ≡ true))
      → Right recipients st (sent_as d x w (targets d w recipients st).2 m).0
  sent_as-Right recipients st (err e, db) c g = tt
  sent_as-Right recipients st (ok enc, db) c g = (
    enc,
    refl,
    c,
    subst (All (Usable (targets d w recipients st).2.db)) (sym c)
        (targets-Found d w laws recipients st).1,
    subst (All (IsTarget d w (w.own ∷ recipients))) (sym c) (targets-IsTarget d w recipients st),
    g,
  )

  tested-Right :
      (recipients : List Text) (st : State) (m : Result EncryptedMessage × Database) (b n : Bool)
      → Covers (targets d w recipients st).1 m.0
      → is_empty (targets d w recipients st).0 ≡ b
      → note_to_self d w recipients ≡ n
      → Right recipients st
          (if b && not n
            then (no_device, (targets d w recipients st).2)
            else sent_as d x w (targets d w recipients st).2 m).0
  tested-Right recipients st m true false c e n = (e, n)
  tested-Right recipients st m true true c e n = sent_as-Right recipients st m c (inr n)
  tested-Right recipients st m false n c e n' = sent_as-Right recipients st m c (inl e)

  -- What is sent has a wrapped key for each target, in their order, and no other: each is a device
  -- of a recipient or of our own account but never the sending one, has a session and is trusted.
  -- There is a device of a recipient, or the note is to ourselves; nothing is sent only without.
  pub encrypt_for_recipients-Right :
      (recipients : List Text) (binding_to : Option Text) (envelope_xml : Bytes) (st : State)
      → Right recipients st (encrypt_for_recipients d x w recipients binding_to envelope_xml st).0
  unfolding encrypt_for_recipients
  encrypt_for_recipients-Right recipients binding_to envelope_xml st =
      let t = targets d w recipients st in
      let own : Address = (w.own, w.our_device) in
      tested-Right recipients st (encrypt x own t.1 binding_to envelope_xml t.2.db) (is_empty t.0)
        (note_to_self d w recipients) (encrypt-Covers x own t.1 binding_to envelope_xml t.2.db) refl
        refl
