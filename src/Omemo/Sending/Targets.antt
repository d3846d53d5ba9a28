-- ===== src/Omemo/Sending/Targets.antt =====
-- The devices that a message is encrypted to are those of its recipients and our own others.
use monocles_chat_desktop.Base.{
  ℕ, ◌≡◌, refl, Bool, true, false, ◌&&◌, List, [], ◌∷◌, Text, if◌then◌else◌, All, All-append,
  All-map, any, ◌==◌, map_or, eq_ignore_case, text_eq, text_eq_refl, arith,
}
use monocles_chat_desktop.Dom.{Dom}
use monocles_chat_desktop.Omemo.Database.{Address}
use monocles_chat_desktop.Omemo.Devices.{
  State, Peers, visit, visit_all, sessions_for, session_with, selected, fetch_device_list,
}
use monocles_chat_desktop.Omemo.Sending.{recipient_addrs, targets}
use monocles_chat_desktop.Omemo.Trust.{trusted}

module _ (d : Dom) (w : Peers d) where
  -- The device that sends.
  abbrev pub sender : Address → Bool
  sender a = text_eq a.0 w.own && a.1 == w.our_device

  -- A device of the JID, not the one that sends.
  abbrev Of : Text → Address → Type 0
  Of jid a = (text_eq a.0 jid ≡ true) × (sender a ≡ false)

  visit-Of : (jid : Text) (dev : ℕ) (st : State) → All (Of jid) (visit d w jid dev st).0
  unfolding visit
  visit-Of jid dev st =
      tested (text_eq jid w.own && dev == w.our_device) refl (session_with d w (jid, dev) st)
    where
      chosen :
          (b : Bool) → sender (jid, dev) ≡ false → All (Of jid) (if b then (jid, dev) ∷ [] else [])
      chosen true h = ((text_eq_refl jid, h), tt)
      chosen false h = tt

      tested :
          (b : Bool)
          → sender (jid, dev) ≡ b
          → (out : Bool × State)
          → All (Of jid) (if b then ([], st) else selected d w (jid, dev) out).0
      tested true h out = tt
      tested false h (there, st') = chosen (there && trusted (jid, dev) st'.db) h

  visit_all-Of :
      (jid : Text) (devs : List ℕ) (st : State) → All (Of jid) (visit_all d w jid devs st).0
  unfolding visit_all
  visit_all-Of jid [] st = tt
  visit_all-Of jid (dev ∷ devs) st =
      let here = visit d w jid dev st in
      All-append (Of jid) here.0 (visit_all d w jid devs here.1).0 (visit-Of jid dev st)
        (visit_all-Of jid devs here.1)

  sessions_for-Of : (jid : Text) (st : State) → All (Of jid) (sessions_for d w jid st).0
  unfolding sessions_for
  sessions_for-Of jid st = visit_all-Of jid (map_or (fetch_device_list d w jid) [] (λ l. l)) _

  -- A device of one of the JIDs, not the one that sends.
  abbrev pub IsTarget : List Text → Address → Type 0
  IsTarget jids a = (any (text_eq a.0) jids ≡ true) × (sender a ≡ false)

  recipient_addrs-IsTarget :
      (jids : List Text) (st : State) → All (IsTarget jids) (recipient_addrs d w jids st).0
  unfolding recipient_addrs
  recipient_addrs-IsTarget [] st = tt
  recipient_addrs-IsTarget (jid ∷ jids) st =
      let here = if eq_ignore_case jid w.own then ([], st) else sessions_for d w jid st in
      All-append (IsTarget (jid ∷ jids)) here.0 (recipient_addrs d w jids here.1).0
        (one (eq_ignore_case jid w.own))
        (All-map (IsTarget jids) (IsTarget (jid ∷ jids)) (recipient_addrs d w jids here.1).0
          (λ a h. (ground (arith, h.0), h.1)) (recipient_addrs-IsTarget jids here.1))
    where
      one :
          (b : Bool)
          → All (IsTarget (jid ∷ jids)) (if b then ([], st) else sessions_for d w jid st).0
      one true = tt
      one false =
          All-map (Of jid) (IsTarget (jid ∷ jids)) (sessions_for d w jid st).0
            (λ a h. (ground (arith, h.0), h.1)) (sessions_for-Of jid st)

  -- Each target is a device of a recipient or of our own account, and never the sending one.
  pub targets-IsTarget :
      (recipients : List Text) (st : State)
      → All (IsTarget (w.own ∷ recipients)) (targets d w recipients st).1
  unfolding targets
  targets-IsTarget recipients st =
      let theirs = recipient_addrs d w recipients st in
      let all_of = w.own ∷ recipients in
      All-append (IsTarget all_of) theirs.0 (sessions_for d w w.own theirs.1).0
        (All-map (IsTarget recipients) (IsTarget all_of) theirs.0
          (λ a h. (ground (arith, h.0), h.1)) (recipient_addrs-IsTarget recipients st))
        (All-map (Of w.own) (IsTarget all_of) (sessions_for d w w.own theirs.1).0
          (λ a h. (ground (arith, h.0), h.1)) (sessions_for-Of w.own theirs.1))
