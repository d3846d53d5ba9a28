-- ===== src/Omemo/Devices/Usable.antt =====
-- Every device that `sessions_for` returns has a session and is trusted.
use monocles_chat_desktop.Base.{
  ℕ, ◌≡◌, refl, ap, ◌∙◌, Bool, true, false, ◌&&◌, List, [], ◌∷◌, inl, inr, Text, if◌then◌else◌,
  ◌==◌, All, All-append, is_some, map_or, text_eq, Bool-cases, clash,
}
use monocles_chat_desktop.Base.Tables.{address_key, row}
use monocles_chat_desktop.Dom.{Dom}
use monocles_chat_desktop.Omemo.Bundle.{Bundle}
use monocles_chat_desktop.Omemo.Caches.{Caches, recently_failed}
use monocles_chat_desktop.Omemo.Database.{Address, Database, load_omemo_session}
use monocles_chat_desktop.Omemo.Devices.{
  State, Peers, session_with, establish, settled, attempt, selected, fetch_bundle, visit, visit_all,
  sessions_for, fetch_device_list,
}
use monocles_chat_desktop.Omemo.Error.{OmemoError, Result, ok, err}
use monocles_chat_desktop.Omemo.Establish.{
  Signal, PreKeyBundle, handshake, finish, prepare, establish_session,
}
use monocles_chat_desktop.Omemo.Trust.{trusted}

-- What libsignal's handshake does to the stores: it works on the rows of the peer's device only,
-- and where it succeeds there is a session.
pub record SignalLaws (s : Signal) : Type 0 where
  pub elsewhere :
      (remote own c : Address) (q : PreKeyBundle) (db : Database)
      → address_key.same remote c ≡ false
      → (row c (s.process_prekey_bundle remote own q db).1.sessions ≡ row c db.sessions)
        × (row c (s.process_prekey_bundle remote own q db).1.identities ≡ row c db.identities)
  pub stored :
      (remote own : Address) (q : PreKeyBundle) (db : Database)
      → (s.process_prekey_bundle remote own q db).0 ≡ ok tt
      → is_some (row remote (s.process_prekey_bundle remote own q db).1.sessions) ≡ true

-- The rows of a device.
abbrev SameAt : Address → Database → Database → Type 0
SameAt c db db' =
    (row c db'.sessions ≡ row c db.sessions) × (row c db'.identities ≡ row c db.identities)

-- The devices with a session are left alone.
abbrev pub Keeps : Database → Database → Type 0
Keeps db db' = (c : Address) → is_some (row c db.sessions) ≡ true → SameAt c db db'

Keeps-refl : (db : Database) → Keeps db db
Keeps-refl db c h = (refl, refl)

pub Keeps-trans : (a b c : Database) → Keeps a b → Keeps b c → Keeps a c
Keeps-trans a b c h k x e =
    let (s, i) = h x e in let (s', i') = k x (ap is_some s ∙ e) in (s' ∙ s, i' ∙ i)

-- A device that can be encrypted to.
abbrev pub Usable : Database → Address → Type 0
Usable db a = (is_some (load_omemo_session a db) ≡ true) × (trusted a db ≡ true)

Usable-Keeps : (db db' : Database) (a : Address) → Keeps db db' → Usable db a → Usable db' a
unfolding trusted
Usable-Keeps db db' a k (s, t) = let (same, same') = k a s in (ap is_some same ∙ s, rw same' t)

pub All-Usable-Keeps :
    (db db' : Database) (addrs : List Address)
    → Keeps db db'
    → All (Usable db) addrs
    → All (Usable db') addrs
All-Usable-Keeps db db' [] k u = tt
All-Usable-Keeps db db' (a ∷ addrs) k (u, us) =
    (Usable-Keeps db db' a k u, All-Usable-Keeps db db' addrs k us)

-- What has a session is not what has none.
apart :
    (remote c : Address) (db : Database)
    → is_some (row remote db.sessions) ≡ false
    → is_some (row c db.sessions) ≡ true
    → address_key.same remote c ≡ false
apart remote c db h h' = elim (Bool-cases (address_key.same remote c)) [
  | inr n ↦ n
  | inl e ↦
      clash h (ap (λ a. is_some (row a db.sessions)) ((address_key.same_iff remote c).0 e) ∙ h')
]

module _ (s : Signal) (laws : SignalLaws s) where
  -- Establishing a session with a device that has none.
  abbrev Settles : Address → Database → Result (Unit {0}) × Database → Type 0
  Settles addr db out = Keeps db out.1 × (out.0 ≡ ok tt → is_some (row addr out.1.sessions) ≡ true)

  process-Settles :
      (remote own : Address) (q : PreKeyBundle) (db : Database)
      → is_some (row remote db.sessions) ≡ false
      → Settles remote db (s.process_prekey_bundle remote own q db)
  process-Settles remote own q db none_yet = (
    λ c h. laws.elsewhere remote own c q db (apart remote c db none_yet h),
    laws.stored remote own q db,
  )

  finish-Settles :
      (remote : Address) (bundle : Bundle) (fp_key : Text) (db : Database)
      (out : Result (Unit {0}) × Database)
      → Settles remote db out
      → Settles remote db (finish s remote bundle fp_key out)
  unfolding finish
  finish-Settles remote bundle fp_key db (ok u, db') h = h
  finish-Settles remote bundle fp_key db (err e, db') h = h

  handshake-Settles :
      (own remote : Address) (bundle : Bundle) (db : Database) (m : Result (PreKeyBundle × Text))
      → is_some (row remote db.sessions) ≡ false
      → Settles remote db (handshake s own remote bundle db m)
  unfolding handshake
  handshake-Settles own remote bundle db (err e) h = (Keeps-refl db, λ e'. cc)
  handshake-Settles own remote bundle db (ok (q, fp_key)) h =
      elim (s.is_device_id own.1)
        as (λ b. Settles remote db (
          if b
          then finish s remote bundle fp_key (s.process_prekey_bundle remote own q db)
          else (err OmemoError.signal, db))) [
            | true ↦
                finish-Settles remote bundle fp_key db (s.process_prekey_bundle remote own q db)
                  (process-Settles remote own q db h)
            | false ↦ (Keeps-refl db, λ e. cc)
          ]

  establish_session-Settles :
      (own remote : Address) (bundle : Bundle) (db : Database)
      → is_some (row remote db.sessions) ≡ false
      → Settles remote db (establish_session s own remote bundle db)
  unfolding establish_session
  establish_session-Settles own remote bundle db h =
      handshake-Settles own remote bundle db (prepare s remote bundle db) h

module _ (d : Dom) (w : Peers d) (laws : SignalLaws w.signal) where
  abbrev Reached : Address → Database → Bool × State → Type 0
  Reached addr db out =
      Keeps db out.1.db × (out.0 ≡ true → is_some (row addr out.1.db.sessions) ≡ true)

  settled-Reached :
      (addr : Address) (db : Database) (c : Caches) (out : Result (Unit {0}) × Database)
      → Settles w.signal laws addr db out
      → Reached addr db (settled d w addr c out)
  settled-Reached addr db c (ok tt, db') h = (h.0, λ _. h.1 refl)
  settled-Reached addr db c (err e, db') h = (h.0, λ e'. cc)

  establish-Reached :
      (addr : Address) (st : State) (m : Result Bundle)
      → is_some (row addr st.db.sessions) ≡ false
      → Reached addr st.db (establish d w addr st m)
  establish-Reached addr st (err e) h = (Keeps-refl st.db, λ e'. cc)
  establish-Reached addr st (ok bundle) h =
      settled-Reached addr st.db st.caches
        (establish_session w.signal (w.own, w.our_device) addr bundle st.db)
        (establish_session-Settles w.signal laws (w.own, w.our_device) addr bundle st.db h)

  attempt-Reached :
      (addr : Address) (st : State) (out : Bool × Caches)
      → is_some (row addr st.db.sessions) ≡ false
      → Reached addr st.db (attempt d w addr st out)
  attempt-Reached addr st (true, c) h = (Keeps-refl st.db, λ e. cc)
  attempt-Reached addr st (false, c) h =
      establish-Reached addr (record st { caches = c }) (fetch_bundle d w addr) h

  with-Reached :
      (addr : Address) (st : State) (b : Bool)
      → is_some (row addr st.db.sessions) ≡ b
      → Reached addr st.db
          (if b then (true, st) else attempt d w addr st (recently_failed w.now addr st.caches))
  with-Reached addr st true h = (Keeps-refl st.db, λ _. h)
  with-Reached addr st false h = attempt-Reached addr st (recently_failed w.now addr st.caches) h

  session_with-Reached :
      (addr : Address) (st : State) → Reached addr st.db (session_with d w addr st)
  unfolding session_with
  session_with-Reached addr st = with-Reached addr st (is_some (row addr st.db.sessions)) refl

  -- The devices found so far can be encrypted to, and stay so.
  abbrev pub Found : Database → List Address × State → Type 0
  Found db out = Keeps db out.1.db × All (Usable out.1.db) out.0

  selected-Found :
      (addr : Address) (db : Database) (out : Bool × State)
      → Reached addr db out
      → Found db (selected d w addr out)
  selected-Found addr db (false, st) h = (h.0, tt)
  selected-Found addr db (true, st) h = (h.0, chosen (trusted addr st.db) refl)
    where
      chosen :
          (b : Bool) → trusted addr st.db ≡ b → All (Usable st.db) (if b then addr ∷ [] else [])
      chosen true t = ((h.1 refl, t), tt)
      chosen false t = tt

  visit-Found : (jid : Text) (dev : ℕ) (st : State) → Found st.db (visit d w jid dev st)
  unfolding visit
  visit-Found jid dev st =
      elim (text_eq jid w.own && dev == w.our_device)
        as (λ b.
          Found st.db
            (if b then ([], st) else selected d w (jid, dev) (session_with d w (jid, dev) st))) [
              | true ↦ (Keeps-refl st.db, tt)
              | false ↦
                  selected-Found (jid, dev) st.db (session_with d w (jid, dev) st)
                    (session_with-Reached (jid, dev) st)
            ]

  pub visit_all-Found :
      (jid : Text) (devs : List ℕ) (st : State) → Found st.db (visit_all d w jid devs st)
  unfolding visit_all
  visit_all-Found jid [] st = (Keeps-refl st.db, tt)
  visit_all-Found jid (dev ∷ devs) st =
      let here = visit d w jid dev st in
      let rest = visit_all d w jid devs here.1 in
      let (kept, first) = visit-Found jid dev st in
      let (kept', later) = visit_all-Found jid devs here.1 in
      (
        Keeps-trans st.db here.1.db rest.1.db kept kept',
        All-append (Usable rest.1.db) here.0 rest.0
            (All-Usable-Keeps here.1.db rest.1.db here.0 kept' first) later,
      )

  -- Every device that `sessions_for` returns has a session and is trusted, in the state that it
  -- leaves; and what it does to the store leaves every device alone that had a session before.
  pub sessions_for-Found : (jid : Text) (st : State) → Found st.db (sessions_for d w jid st)
  unfolding sessions_for
  sessions_for-Found jid st = visit_all-Found jid (map_or (fetch_device_list d w jid) [] (λ l. l)) _
