-- ===== src/Omemo/Healing/Quiet.antt =====
-- A device is healed at most once in a cooldown.
use monocles_chat_desktop.Base.{
  ℕ, ◌+◌, ◌<◌, ◌≡◌, refl, ap, ◌∙◌, Bool, true, false, [], ◌∷◌, Option, some, Text, if◌then◌else◌,
  arith,
}
use monocles_chat_desktop.Base.Tables.{address_key, row, row-upsert, same_refl}
use monocles_chat_desktop.Dom.{Dom}
use monocles_chat_desktop.Omemo.Bundle.{Bundle}
use monocles_chat_desktop.Omemo.Caches.{
  Caches, may_heal, heal_cooldown, forget_jid_failures, note_establish_failure,
}
use monocles_chat_desktop.Omemo.Database.{Address, Database}
use monocles_chat_desktop.Omemo.Devices.{State, Peers, fetch_bundle}
use monocles_chat_desktop.Omemo.Error.{Result, ok, err}
use monocles_chat_desktop.Omemo.Establish.{establish_session}
use monocles_chat_desktop.Omemo.Healing.{
  silent, sent_as, send_empty, if_trusted, ourselves, healed, heal_from, heal_now, heal_session,
}
use monocles_chat_desktop.Omemo.Sending.{EncryptedMessage, Sealing, encrypt}
use monocles_chat_desktop.Omemo.Trust.{trusted}
use monocles_chat_desktop.Uri.Utf8.{Bytes}

-- The time of the last heal of a device.
abbrev last_heal : Address → State → Option ℕ
last_heal addr st = row addr st.caches.heal_attempts

module _ (d : Dom) (x : Sealing) (w : Peers d) (addr : Address) where
  send_empty-heals :
      (id : Text) (empty : Bytes) (st : State)
      → last_heal addr (send_empty d x w addr id empty st).1 ≡ last_heal addr st
  unfolding send_empty
  send_empty-heals id empty st =
      kept (encrypt x (w.own, w.our_device) (addr ∷ []) (some addr.0) empty st.db)
    where
      kept :
          (out : Result EncryptedMessage × Database)
          → last_heal addr (sent_as d x w addr id st out).1 ≡ last_heal addr st
      kept (ok enc, db) = refl
      kept (err e, db) = refl

  if_trusted-heals :
      (id : Text) (empty : Bytes) (st : State)
      → last_heal addr (if_trusted d x w addr id empty st).1 ≡ last_heal addr st
  if_trusted-heals id empty st =
      elim (trusted addr st.db)
        as (λ b.
          last_heal addr (if b then send_empty d x w addr id empty st else (silent, st)).1
          ≡ last_heal addr st) [ true ↦ send_empty-heals id empty st | false ↦ refl ]

  healed-heals :
      (id : Text) (empty : Bytes) (c : Caches) (out : Result (Unit {0}) × Database)
      → last_heal addr (healed d x w addr id empty c out).1 ≡ row addr c.heal_attempts
  unfolding note_establish_failure
  healed-heals id empty c (ok u, db) = if_trusted-heals id empty (record { db = db; caches = c })
  healed-heals id empty c (err e, db) = refl

  heal_from-heals :
      (id : Text) (empty : Bytes) (st : State) (m : Result Bundle)
      → last_heal addr (heal_from d x w addr id empty st m).1 ≡ last_heal addr st
  unfolding note_establish_failure
  heal_from-heals id empty st (err e) = refl
  heal_from-heals id empty st (ok bundle) =
      healed-heals id empty st.caches
        (establish_session w.signal (w.own, w.our_device) addr bundle st.db)

  heal_now-heals :
      (id : Text) (empty : Bytes) (st : State) (out : Bool × Caches)
      → last_heal addr (heal_now d x w addr id empty st out).1 ≡ row addr out.1.heal_attempts
  unfolding forget_jid_failures
  heal_now-heals id empty st (false, c) = refl
  heal_now-heals id empty st (true, c) =
      elim (ourselves d x w addr)
        as (λ b.
          last_heal addr
            (if b
              then (silent, record st { caches = c })
              else heal_from d x w addr id empty
                  (record st { caches = forget_jid_failures addr.0 c }) (fetch_bundle d w addr)).1
          ≡ row addr c.heal_attempts) [
            | true ↦ refl
            | false ↦
                heal_from-heals id empty (record st { caches = forget_jid_failures addr.0 c })
                  (fetch_bundle d w addr)
          ]

-- An attempt that is allowed is recorded.
may_heal-recorded :
    (now : ℕ) (addr : Address) (c : Caches)
    → (may_heal now addr c).0 ≡ true
    → row addr (may_heal now addr c).1.heal_attempts ≡ some now
unfolding may_heal
may_heal-recorded now addr c h =
    ground (arith, row-upsert addr addr now (λ _. now) c.heal_attempts, same_refl addr)

-- Within the window of a recorded one, no other is allowed.
may_heal-within :
    (now before : ℕ) (addr : Address) (c : Caches)
    → row addr c.heal_attempts ≡ some before
    → now < before + heal_cooldown
    → may_heal now addr c ≡ (false, c)
unfolding may_heal
may_heal-within now before addr c e h = ground (arith, e)

-- After a heal that the cooldown allows, and however it ends, a further one for the device within
-- 300 seconds sends nothing and changes nothing.
pub heal_session_once :
    (d : Dom) (x : Sealing) (w : Peers d) (addr : Address) (id id' : Text) (empty empty' : Bytes)
    (st : State) (t : ℕ)
    → (may_heal w.now addr st.caches).0 ≡ true
    → t < w.now + 300000
    → heal_session d x
        (record w { now = t })
        addr
        id'
        empty'
        (heal_session d x w addr id empty st).1
      ≡ (silent, (heal_session d x w addr id empty st).1)
unfolding heal_session
heal_session_once d x w addr id id' empty empty' st t h soon =
    let st' = (heal_session d x w addr id empty st).1 in
    let recorded =
      heal_now-heals d x w addr id empty st (may_heal w.now addr st.caches)
      ∙ may_heal-recorded w.now addr st.caches h in
    ap (heal_now d x (record w { now = t }) addr id' empty' st')
      (may_heal-within t w.now addr st'.caches recorded soon)
