-- ===== src/Messaging/Replay.antt =====
-- What the binding of an encrypted message keeps out.
use monocles_chat_desktop.Base.{
  ℕ, ◌+◌, ◌≤◌, ◌<◌, Bool, true, false, not, ◌&&◌, ◌≡◌, ◌≢◌, all, text_eq, ◌||◌, refl, ◌∙◌, ap, sym,
  List, [], ◌∷◌, Option, none, some, Text, codes, any, keep, eq_ignore_case, map_or, unwrap_or,
  arith, Option-cases, Bool-cases, inl, inr,
}
use monocles_chat_desktop.Calls.State.{bare}
use monocles_chat_desktop.Dom.{Dom, DomLaws, attr}
use monocles_chat_desktop.Messaging.Binding.{
  Clock, ns_delay, accepted, check_time, check_stamp, check_sce_binding, foreign_stamp, first_stamp,
  is_groupchat, sce_time_reference, forbidden, strip_server_processed,
}
use monocles_chat_desktop.Sce.Binding.{Same, eq_ignore_case_iff}
use monocles_chat_desktop.Sce.Envelope.{Envelope}

-- Less than seven days and a second lie between them, in nanoseconds.
abbrev pub Near : ℕ → ℕ → Type 0
Near t r = (t < r + 604801000000000) × (r < t + 604801000000000)

-- The instant that a stanza's stamp names, or the present.
abbrev pub reference : Clock → Option Text → ℕ
reference clock stanza_ts = unwrap_or (map_or stanza_ts none clock.parse) clock.now

check_time-accepted :
    (clock : Clock) (t : ℕ) (stanza_ts : Option Text)
    → check_time clock t stanza_ts ≡ accepted
    → (t < clock.now + 604801000000000) × Near t (reference clock stanza_ts)
check_time-accepted clock t stanza_ts h = ground arith

check_stamp-accepted :
    (clock : Clock) (time stanza_ts : Option Text)
    → check_stamp clock time stanza_ts ≡ accepted
    → (t : ℕ) × (map_or time none clock.parse ≡ some t)
      × (t < clock.now + 604801000000000)
      × Near t (reference clock stanza_ts)
check_stamp-accepted clock none stanza_ts h = absurd (ground arith)
check_stamp-accepted clock (some stamp) stanza_ts h = elim (Option-cases (clock.parse stamp)) [
  | inl e ↦ absurd (ground arith)
  | inr (t, e) ↦
      let ok : check_time clock t stanza_ts ≡ accepted = rw e at h in
      let (past, near) = check_time-accepted clock t stanza_ts ok in (t, e, past, near)
]

-- The recipient is the expected one, if one is expected.
abbrev pub IsExpected : Option Text → Text → Type 0
IsExpected none to = Unit
IsExpected (some exp) to = Same to exp

checked_recipient :
    (expected_to : Option Text) (to : Text)
    → map_or expected_to false (λ exp. not (eq_ignore_case to exp)) ≡ false
    → IsExpected expected_to to
checked_recipient none to h = tt
checked_recipient (some exp) to h = ground (arith, eq_ignore_case_iff to exp)

-- An envelope is accepted only if it names the sender that was authenticated and the recipient
-- that is expected, up to the case of ASCII letters, and carries a stamp that can be read, of an
-- instant that lies less than seven days and a second behind the present, and from the stanza's
-- own time in either direction.
pub check_sce_binding-accepted :
    (clock : Clock) (env : Envelope) (sender : Text) (expected_to stanza_ts : Option Text)
    → check_sce_binding clock env sender expected_to stanza_ts ≡ accepted
    → Same env.from sender
      × IsExpected expected_to env.to
      × ((t : ℕ) × (map_or env.time none clock.parse ≡ some t)
          × (t < clock.now + 604801000000000)
          × Near t (reference clock stanza_ts))
unfolding check_sce_binding
check_sce_binding-accepted clock env sender expected_to stanza_ts h =
    let elsewhere = map_or expected_to false (λ exp. not (eq_ignore_case env.to exp)) in
    let from_ok : Same env.from sender = ground (arith, eq_ignore_case_iff env.from sender) in
    let to_ok : elsewhere ≡ false = ground arith in
    let stamp : check_stamp clock env.time stanza_ts ≡ accepted = ground arith in
    (
      from_ok,
      checked_recipient expected_to env.to to_ok,
      check_stamp-accepted clock env.time stanza_ts stamp,
    )

keep-all :
    {A : Type 0} (p : A → Bool) (xs : List A) → any p xs ≡ false → keep (λ x. not (p x)) xs ≡ xs
keep-all p [] h = refl
keep-all p (x ∷ xs) h = ground (arith, keep-all p xs)

module _ (d : Dom) where
  open d use {Element, name, ns, children}

  -- No `<delay/>`, or one that names nobody, or the sender, as the one who set it.
  abbrev pub is_own : Text → Element → Bool
  is_own sender e =
      not (text_eq (name e) (codes "delay") && text_eq (ns e) ns_delay)
      || map_or (attr d (codes "from") e) true (λ f. eq_ignore_case (bare f) (bare sender))

  foreign_stamp-is_own :
      (sender : Text) (e : Element)
      → is_own sender e ≡ true
      → foreign_stamp d (some sender) e ≡ none
  unfolding foreign_stamp eq_ignore_case
  foreign_stamp-is_own sender e h = ground arith

  first_stamp-is_own :
      (sender : Text) (es : List Element) (default : Text)
      → all (is_own sender) es ≡ true
      → first_stamp d (some sender) es default ≡ default
  unfolding first_stamp
  first_stamp-is_own sender [] default h = refl
  first_stamp-is_own sender (e ∷ es) default h =
      ground (arith, foreign_stamp-is_own sender e, first_stamp-is_own sender es default)

  -- A message that arrives live and not from a room is measured by the receiver's clock if each
  -- of its delays names nobody or its sender: whatever stamps the sender put on those delays, an
  -- envelope of which the stamp lies seven days and a second or more before the present is not
  -- accepted.
  pub check_sce_binding-replay :
      (clock : Clock) (env : Envelope) (msg : Element) (jid sender stored_ts : Text)
      (expected_to : Option Text) (t now : ℕ)
      → is_groupchat d msg ≡ false
      → attr d (codes "from") msg ≡ some jid
      → all (is_own jid) (children msg) ≡ true
      → clock.parse clock.rfc3339_now ≡ some now
      → map_or env.time none clock.parse ≡ some t
      → t + 604801000000000 ≤ now
      → check_sce_binding clock env sender expected_to
          (some (sce_time_reference d clock msg true stored_ts))
        ≢ accepted
  unfolding sce_time_reference
  check_sce_binding-replay clock env msg jid sender stored_ts expected_to t now g f own p e old ok =
      let from_now : sce_time_reference d clock msg true stored_ts ≡ clock.rfc3339_now =
        rw (g, f) (first_stamp-is_own jid (children msg) clock.rfc3339_now own) in
      let stanza_ts = some (sce_time_reference d clock msg true stored_ts) in
      let here : reference clock stanza_ts ≡ now =
        ap (λ s. unwrap_or (clock.parse s) clock.now) from_now
        ∙ ap (λ o. unwrap_or o clock.now) p in
      let (_, _, (t', e', _, near)) =
        check_sce_binding-accepted clock env sender expected_to stanza_ts ok in
      let same : t' ≡ t = ap (λ o. unwrap_or o 0) (sym e' ∙ e) in
      omega (arith, near, here, same, old)

  -- Elements that the server must be able to read are discarded, and nothing else is: the
  -- children that stay keep their order, and the name and the namespace stay too.
  pub strip_server_processed-children :
      (l : DomLaws d) (content : Element)
      → (children (strip_server_processed d content)
          ≡ keep (λ c. not (forbidden d c)) (children content))
        × (name (strip_server_processed d content) ≡ name content)
        × (ns (strip_server_processed d content) ≡ ns content)
  unfolding strip_server_processed
  strip_server_processed-children l content =
      elim (Bool-cases (any (forbidden d) (children content))) [
        | inl e ↦
            rw (e, strip_server_processed)
              (l.children-build _ _ _ _ _, l.name-build _ _ _ _ _, l.ns-build _ _ _ _ _)
        | inr e ↦
            rw (e, strip_server_processed)
              (sym (keep-all (forbidden d) (children content) e), refl, refl)
      ]
