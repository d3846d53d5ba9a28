-- ===== src/Omemo/Establish/Pins.antt =====
-- The pin of a post-quantum identity is kept.
use mathlib.Core.Path.{subst}
use monocles_chat_desktop.Base.{
  ◌≡◌, ◌⊎◌, inl, inr, refl, sym, ap, ◌∙◌, Bool, true, false, [], Option, none, some, Text,
  if◌then◌else◌, ◌==◌, is_some, map_or, text_eq, text_eq_iff, Bool-cases, arith,
}
use monocles_chat_desktop.Base.Tables.{address_key, texts_key, row, upsert, row-upsert, same_refl}
use monocles_chat_desktop.Omemo.Bundle.{Bundle, supports_pqxdh, has_pq_identity}
use monocles_chat_desktop.Omemo.Database.{
  Address, Database, OmemoIdentity, omemo_identity, pin_omemo2_pq_identity,
}
use monocles_chat_desktop.Omemo.Error.{OmemoError, Result, ok, err, ok_or, >>=-eq-ok, guard-eq-ok}
use monocles_chat_desktop.Omemo.Establish.{
  Signal, PreKeyBundle, pq_pin_key, pin_allows, prepare, finish, handshake, establish_session,
  pq_signed, reconcile_pq_pin, first, ec_djb, chosen_kem,
}
use monocles_chat_desktop.Uri.Utf8.{Bytes}

abbrev fp_of : Result (PreKeyBundle × Text) → Text
fp_of (ok x) = x.1
fp_of (err e) = []

module _ (s : Signal) where
  prepare-pin_allows :
      (remote : Address) (bundle : Bundle) (db : Database) (p : PreKeyBundle) (fp_key : Text)
      → prepare s remote bundle db ≡ ok (p, fp_key)
      → pin_allows s remote fp_key bundle db ≡ true
  unfolding prepare
  prepare-pin_allows remote bundle db p fp_key e =
      let (_, e1) = guard-eq-ok (supports_pqxdh bundle) OmemoError.no_pqxdh _ e in
      let (_, e2) = guard-eq-ok (has_pq_identity bundle) OmemoError.no_pq_identity _ e1 in
      let (ik, _, e3) = >>=-eq-ok (ok_or (s.identity (ec_djb bundle.ik)) OmemoError.signal) _ e2 in
      let (_, e4) = guard-eq-ok (s.is_pq_identity bundle.pq_ik) OmemoError.signal _ e3 in
      let (_, e5) = guard-eq-ok (s.is_pq_signature bundle.pq_sig) OmemoError.signal _ e4 in
      let (allowed, e6) =
        guard-eq-ok (pin_allows s remote (pq_pin_key s ik) bundle db)
          (OmemoError.pq_identity_changed (pq_pin_key s ik)) _ e5 in
      let (ec, _, e7) = >>=-eq-ok (ok_or (first bundle.prekeys) OmemoError.bundle_parse) _ e6 in
      let (_, e8) = guard-eq-ok (s.is_public (ec_djb ec.1)) OmemoError.signal _ e7 in
      let (_, e9) = guard-eq-ok (s.is_kem_public (chosen_kem bundle).1) OmemoError.signal _ e8 in
      let (_, e10) = guard-eq-ok (s.is_device_id remote.1) OmemoError.signal _ e9 in
      let (_, e11) = guard-eq-ok (s.is_public (ec_djb bundle.spk)) OmemoError.signal _ e10 in
      subst (λ k. pin_allows s remote k bundle db ≡ true) (key e11) allowed
    where
      key : {x : PreKeyBundle × Text} → ok x ≡ ok (p, fp_key) → x.1 ≡ fp_key
      key h = ap fp_of h

  abbrev Verified : Address → Database → Type 0
  Verified remote db = (r : OmemoIdentity) × (omemo_identity remote db ≡ some r) × (r.trust ≡ 3)

  verified :
      (o : Option OmemoIdentity)
      → map_or o false (λ r. r.trust == 3) ≡ true
      → (r : OmemoIdentity) × (o ≡ some r) × (r.trust ≡ 3)
  verified none h = cc
  verified (some r) h = (r, refl, ground arith)

  -- What a pin that allows the bundle says.
  pin_allows-cases :
      (remote : Address) (fp_key : Text) (bundle : Bundle) (db : Database) (k : Bytes)
      → pin_allows s remote fp_key bundle db ≡ true
      → row (remote.0, fp_key) db.pins ≡ some k
      → (k ≡ bundle.pq_ik) ⊎ Verified remote db
  unfolding pin_allows
  pin_allows-cases remote fp_key bundle db k h e = elim (Bool-cases (text_eq k bundle.pq_ik)) [
    | inl same ↦ inl ((text_eq_iff k bundle.pq_ik).0 same)
    | inr differ ↦
        let rest : map_or (omemo_identity remote db) false (λ r. r.trust == 3) ≡ true =
          rw (e, differ) at h in
        inr (verified (omemo_identity remote db) rest)
  ]

  -- A pin that is there stays, unless the user has verified the device by hand.
  abbrev Kept : Address → Database → Text × Text → Bytes → Database → Type 0
  Kept remote db p k db' = (row p db'.pins ≡ some k) ⊎ ((p.0 ≡ remote.0) × Verified remote db)

  map_or_same : (o : Option Bytes) (b : Bytes) → map_or o b (λ _. b) ≡ b
  map_or_same none b = refl
  map_or_same (some x) b = refl

  finish-Kept :
      (remote : Address) (bundle : Bundle) (fp_key : Text) (db : Database)
      (out : Result (Unit {0}) × Database) (p : Text × Text) (k : Bytes)
      → pin_allows s remote fp_key bundle db ≡ true
      → out.1.pins ≡ db.pins
      → row p db.pins ≡ some k
      → Kept remote db p k (finish s remote bundle fp_key out).1
  unfolding finish
  finish-Kept remote bundle fp_key db (err e, db') p k allowed same h = inl (ap (row p) same ∙ h)
  finish-Kept remote bundle fp_key db (ok u, db') p k allowed same h =
      let at : Text × Text = (remote.0, fp_key) in
      let pq = bundle.pq_ik in
      let read = row-upsert at p pq (λ _. pq) db'.pins in
      elim (Bool-cases (texts_key.same at p)) [
        | inr apart ↦ inl (
            read
            ∙ ap (λ b. if b then some (map_or (row at db'.pins) pq (λ _. pq)) else row p db'.pins)
                apart
            ∙ ap (row p) same
            ∙ h)
        | inl hit ↦
            let here = (texts_key.same_iff at p).0 hit in
            elim (pin_allows-cases remote fp_key bundle db k allowed
              (ap (λ a. row a db.pins) here ∙ h)) [
                | inl equal ↦ inl (
                    read
                    ∙ ap
                        (λ b.
                          if b
                          then some (map_or (row at db'.pins) pq (λ _. pq))
                          else row p db'.pins)
                        hit
                    ∙ ap some (map_or_same (row at db'.pins) pq ∙ sym equal))
                | inr v ↦ inr (ap (λ (a : Text × Text). a.0) (sym here), v)
              ]
      ]

  handshake-Kept :
      (own remote : Address) (bundle : Bundle) (db : Database) (m : Result (PreKeyBundle × Text))
      (p : Text × Text) (k : Bytes)
      → ((a b : Address) (q : PreKeyBundle) (d : Database)
          → (s.process_prekey_bundle a b q d).1.pins ≡ d.pins)
      → ((q : PreKeyBundle) (fp_key : Text)
          → m ≡ ok (q, fp_key)
          → pin_allows s remote fp_key bundle db ≡ true)
      → row p db.pins ≡ some k
      → Kept remote db p k (handshake s own remote bundle db m).1
  unfolding handshake
  handshake-Kept own remote bundle db (err e) p k law allowed h = inl h
  handshake-Kept own remote bundle db (ok (q, fp_key)) p k law allowed h =
      elim (s.is_device_id own.1)
        as (λ b.
          Kept remote db p k
            (if b
              then finish s remote bundle fp_key (s.process_prekey_bundle remote own q db)
              else (err OmemoError.signal, db)).1) [
                | true ↦
                    finish-Kept remote bundle fp_key db (s.process_prekey_bundle remote own q db) p
                      k (allowed q fp_key refl) (law remote own q db) h
                | false ↦ inl h
              ]

  -- Establishing a session, whether it succeeds or not, leaves every pin as it was, but for those of
  -- the peer's JID if the user has verified the device. (The handshake has no access to the pins.)
  pub establish_session-Kept :
      (own remote : Address) (bundle : Bundle) (db : Database) (p : Text × Text) (k : Bytes)
      → ((a b : Address) (q : PreKeyBundle) (d : Database)
          → (s.process_prekey_bundle a b q d).1.pins ≡ d.pins)
      → row p db.pins ≡ some k
      → (row p (establish_session s own remote bundle db).1.pins ≡ some k)
        ⊎ ((p.0 ≡ remote.0)
            × ((r : OmemoIdentity) × (omemo_identity remote db ≡ some r) × (r.trust ≡ 3)))
  unfolding establish_session
  establish_session-Kept own remote bundle db p k law h =
      handshake-Kept own remote bundle db (prepare s remote bundle db) p k law
        (prepare-pin_allows remote bundle db) h

  abbrev written : Result (Bool × Database) → Database → Database
  written (ok (w, db')) db = db'
  written (err e) db = db

  -- Writing a pin that is missing.
  filled-kept :
      (a p : Text × Text) (pq k : Bytes) (db : Database)
      → row a db.pins ≡ none
      → row p db.pins ≡ some k
      → row p (upsert a pq (λ _. pq) db.pins) ≡ some k
  filled-kept a p pq k db missing h =
      row-upsert a p pq (λ _. pq) db.pins ∙ ground (arith, texts_key.same_iff a p, missing, h)

  -- The pins are kept, and there is one at `a`.
  abbrev Filled : Text × Text → Database → Database → Type 0
  Filled a db db' =
      ((p : Text × Text) (k : Bytes) → row p db.pins ≡ some k → row p db'.pins ≡ some k)
      × (is_some (row a db'.pins) ≡ true)

  abbrev fill : Text × Text → Bytes → Database → Option Bytes → Bool × Database
  fill a pq db o = if is_some o then (false, db) else (true, pin_omemo2_pq_identity a.0 a.1 pq db)

  fill-Filled :
      (a : Text × Text) (pq : Bytes) (db : Database) (o : Option Bytes)
      → row a db.pins ≡ o
      → Filled a db (fill a pq db o).1
  fill-Filled a pq db none e = (
    λ p k h. filled-kept a p pq k db e h,
    ap is_some (row-upsert a a pq (λ _. pq) db.pins)
        ∙ ap
            (λ b. is_some (if b then some (map_or (row a db.pins) pq (λ _. pq)) else row a db.pins))
            (same_refl a),
  )
  fill-Filled a pq db (some k) e = (λ p k' h. h, ap is_some e)

  -- Reconciling writes at most the pin that is missing, of the key that is known, and only if the
  -- post-quantum identity has signed the bundle with that key. Every pin that is there stays.
  pub reconcile_pq_pin-kept :
      (remote : Address) (bundle : Bundle) (known_ik : Bytes) (db : Database) {w : Bool}
      {db' : Database}
      → reconcile_pq_pin s remote bundle known_ik db ≡ ok (w, db')
      → (pq_signed s known_ik bundle ≡ true)
        × (((p : Text × Text) (k : Bytes) → row p db.pins ≡ some k → row p db'.pins ≡ some k)
            × (is_some (row (remote.0, pq_pin_key s known_ik) db'.pins) ≡ true))
  unfolding reconcile_pq_pin
  reconcile_pq_pin-kept remote bundle known_ik db {w} {db'} e =
      let (_, e1) = guard-eq-ok (has_pq_identity bundle) OmemoError.no_pq_identity _ e in
      let (ik, _, e2) = >>=-eq-ok (ok_or (s.identity (ec_djb bundle.ik)) OmemoError.signal) _ e1 in
      let (known, e3) = guard-eq-ok (text_eq ik known_ik) OmemoError.bundle_parse _ e2 in
      let (_, e4) = guard-eq-ok (s.is_pq_identity bundle.pq_ik) OmemoError.signal _ e3 in
      let (_, e5) = guard-eq-ok (s.is_pq_signature bundle.pq_sig) OmemoError.signal _ e4 in
      let (_, e6) = guard-eq-ok (s.is_public (ec_djb bundle.spk)) OmemoError.signal _ e5 in
      let (signed, e7) = guard-eq-ok (pq_signed s ik bundle) OmemoError.bad_signature _ e6 in
      let a : Text × Text = (remote.0, pq_pin_key s known_ik) in
      let pq = bundle.pq_ik in
      (
        ap (λ x. pq_signed s x bundle) (sym ((text_eq_iff ik known_ik).0 known)) ∙ signed,
        subst (Filled a db) (ap (λ m. written m db) e7) (fill-Filled a pq db (row a db.pins) refl),
      )
