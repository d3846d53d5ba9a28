-- ===== src/Omemo/Receiving/Opened.antt =====
-- A message that is decrypted was wrapped for us, and its payload opened.
use monocles_chat_desktop.Base.{
  All-AnyOf, ℕ, ◌≡◌, ◌⊎◌, refl, sym, ap, Bool, true, false, [], ◌∷◌, Option, Text, if◌then◌else◌,
  length, is_empty, arith,
}
use monocles_chat_desktop.Dom.{Dom}
use monocles_chat_desktop.Omemo.Caches.{Caches}
use monocles_chat_desktop.Omemo.Database.{Address, Database}
use monocles_chat_desktop.Omemo.Devices.{State}
use monocles_chat_desktop.Omemo.Error.{OmemoError, Result, ok, err}
use monocles_chat_desktop.Omemo.Payload.{omemo2_open}
use monocles_chat_desktop.Omemo.Receiving.{
  Opening, Candidate, with_message_key, opened, decrypt, select_key_candidates, Attempted, success,
  failure, attempt, Decrypted, Stanza, read_stanza, conclude, receive, decrypt_message,
}
use monocles_chat_desktop.Omemo.Receiving.Attempts.{select_key_candidates-IsOurs, attempt-success}
use monocles_chat_desktop.Omemo.Receiving.Ours.{IsOurs}
use monocles_chat_desktop.Uri.Decimal.{show_nat}
use monocles_chat_desktop.Uri.Utf8.{Bytes}

-- The envelope of a message key: nothing for a key transport, and else what the payload opens to.
abbrev pub Opens : Opening → Address → Option Text → Bytes → Option Bytes → Bytes → Bytes → Type 0
Opens o from to payload commit key env =
    ((payload ≡ []) × (env ≡ []))
    ⊎ (omemo2_open o.sponge o.aead key payload from.0 to from.1 commit ≡ ok env)

module _ (o : Opening) where
  with_message_key-Opens :
      (from : Address) (to : Option Text) (payload : Bytes) (commit : Option Bytes)
      (key env : Bytes)
      → with_message_key o from to payload commit key ≡ ok env
      → (length key ≡ 32) × Opens o from to payload commit key env
  unfolding with_message_key
  with_message_key-Opens from to [] commit key env h = ground arith
  with_message_key-Opens from to (b ∷ payload) commit key env h = ground arith

  opened-Opens :
      (from : Address) (to : Option Text) (payload : Bytes) (commit : Option Bytes)
      (out : Result Bytes × Database) (env : Bytes)
      → (opened o from to payload commit out).0 ≡ ok env
      → (key : Bytes) × (out.0 ≡ ok key)
        × (length key ≡ 32)
        × Opens o from to payload commit key env
  opened-Opens from to payload commit (err e, db) env h = cc
  opened-Opens from to payload commit (ok key, db) env h =
      let (size, opens) = with_message_key-Opens from to payload commit key env h in
      (key, refl, size, opens)

abbrev envelope_of : Result Decrypted → Bytes
envelope_of (ok r) = r.envelope
envelope_of (err e) = []

abbrev device_of : Result Decrypted → ℕ
device_of (ok r) = r.sender_device
device_of (err e) = 0

module _ (d : Dom) (o : Opening) where
  open d use {Element, children}

  -- What a decrypted message rests on.
  abbrev pub Grounds : Address → Address → Option Text → Stanza Element → Bytes → Candidate → Type 0
  Grounds own from to s env c =
      IsOurs d o.decode own.0 (show_nat own.1) (children s.header) c
      × ((before : Database) × (key : Bytes) × ((o.message_decrypt c.1 from own c.0 before).0
            ≡ ok key)
          × (length key ≡ 32)
          × Opens o from to s.payload s.commit key env)

  conclude-success :
      (s : Stanza Element) (from : Address) (c : Caches) (out : Attempted × Database)
      {r : Decrypted}
      → (conclude d o s from c out).0 ≡ ok r
      → (cand : Candidate) × (out.0 ≡ success r.envelope cand) × (r.sender_device ≡ s.sid)
  unfolding conclude
  conclude-success s from c (failure e, db) h = cc
  conclude-success s from c (success env cand, db) {r} h =
      (cand, ap (λ (m : Result Decrypted). success (envelope_of m) cand) h, sym (ap device_of h))

  receive-Grounds :
      (own : Address) (sender : Text) (to : Option Text) (st : State) (m : Result (Stanza Element))
      {r : Decrypted}
      → (receive d o own sender to st m).0 ≡ ok r
      → (s : Stanza Element) × (c : Candidate) × (m ≡ ok s)
        × (r.sender_device ≡ s.sid)
        × Grounds own (sender, s.sid) to s r.envelope c
  unfolding receive decrypt
  receive-Grounds own sender to st (err e) h = cc
  receive-Grounds own sender to st (ok s) {r} h =
      let from : Address = (sender, s.sid) in
      let found = (select_key_candidates d o.decode s.header own.0 own.1).0 in
      let out = attempt (decrypt o own from to s.payload s.commit) found OmemoError.signal st.db in
      let (cand, won, device) =
        conclude-success s from st.caches out (passed (is_empty found) out h) in
      let (m, (before, done)) =
        attempt-success (decrypt o own from to s.payload s.commit) found OmemoError.signal st.db
          won in
      let (key, unwrapped, size, opens) =
        opened-Opens o from to s.payload s.commit (o.message_decrypt cand.1 from own cand.0 before)
          r.envelope done in
      (
        s,
        cand,
        refl,
        device,
        (
          All-AnyOf (IsOurs d o.decode own.0 (show_nat own.1) (children s.header)) cand found
              (select_key_candidates-IsOurs d o.decode s.header own.0 own.1).0 m,
          (before, key, unwrapped, size, opens),
        ),
      )
    where
      passed :
          (b : Bool) (out : Attempted × Database)
          → (if b
              then (err OmemoError.signal, st)
              else conclude d o s (sender, s.sid) st.caches out).0
            ≡ ok r
          → (conclude d o s (sender, s.sid) st.caches out).0 ≡ ok r
      passed true out e = cc
      passed false out e = e

  -- A message that is decrypted holds a wrapped key in a block that bears our own JID, under our
  -- device's id; libsignal unwrapped it, in the session of the sending device, to a message key of 32
  -- bytes; and with this key the payload opened to the envelope, in the context of the sender, of
  -- its device and of the recipient that is expected, or the message has no payload and the
  -- envelope is empty.
  pub decrypt_message-Grounds :
      (own : Address) (encrypted : Element) (sender : Text) (to : Option Text) (st : State)
      {r : Decrypted}
      → (decrypt_message d o own encrypted sender to st).0 ≡ ok r
      → (s : Stanza Element) × (c : Candidate) × (read_stanza d o encrypted ≡ ok s)
        × (r.sender_device ≡ s.sid)
        × Grounds own (sender, s.sid) to s r.envelope c
  unfolding decrypt_message
  decrypt_message-Grounds own encrypted sender to st h =
      receive-Grounds own sender to st (read_stanza d o encrypted) h
