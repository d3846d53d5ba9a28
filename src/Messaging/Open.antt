-- ===== src/Messaging/Open.antt =====
-- The part of the handler of a message that opens a decrypted envelope.
use monocles_chat_desktop.Base.{
  ℕ, ◌+◌, ◌<◌, Bool, true, false, not, ◌≡◌, refl, sym, ◌∙◌, ap, List, [], ◌∷◌, ◌++◌, Option, none,
  some, inl, inr, Text, codes, if◌then◌else◌, any, keep, map_or, text_eq, unwrap_or, arith,
  Option-cases, Bool-cases,
}
use monocles_chat_desktop.Dom.{Dom, DomLaws}
use monocles_chat_desktop.Messaging.Binding.{
  Clock, Verdict, accepted, wrong_sender, wrong_recipient, no_time, unparseable_time, from_future,
  replayed, check_sce_binding, sce_time_reference, forbidden, strip_server_processed,
}
use monocles_chat_desktop.Messaging.Replay.{
  Near, reference, IsExpected, check_sce_binding-accepted, strip_server_processed-children,
}
use monocles_chat_desktop.Sce.Binding.{Same}
use monocles_chat_desktop.Sce.Envelope.{Escaping, Envelope}
use monocles_chat_desktop.Sce.Reader.{XmlEvent, from_xml}

pub data Direction : Type 0 where
  out inward : Direction

-- The recipient that an envelope must name, by the kind of the conversation.
abbrev pub expected_to : Text → Direction → Text → Text → Option Text
expected_to kind direction counterpart own =
    if text_eq kind (codes "muc")
    then some counterpart
    else if text_eq kind (codes "muc_pm")
    then none
    else some (recipient direction)
  where
    recipient : Direction → Text
    recipient Direction.out = counterpart
    recipient Direction.inward = own

abbrev pub wrapped : Text → Text
wrapped inner = codes "<content xmlns='jabber:client'>" ++ (inner ++ codes "</content>")

abbrev pub is_accepted : Verdict → Bool
is_accepted accepted = true
is_accepted _ = false

is_accepted-accepted : (v : Verdict) → is_accepted v ≡ true → v ≡ accepted
is_accepted-accepted accepted h = refl
is_accepted-accepted wrong_sender h = absurd (ground arith)
is_accepted-accepted wrong_recipient h = absurd (ground arith)
is_accepted-accepted no_time h = absurd (ground arith)
is_accepted-accepted unparseable_time h = absurd (ground arith)
is_accepted-accepted from_future h = absurd (ground arith)
is_accepted-accepted replayed h = absurd (ground arith)

module _ (d : Dom) (x : Escaping) (clock : Clock) (parse : Text → Option d.Element) where
  open d use {Element, children}

  -- `events` are those of the decrypted text; `none` is a message that is not surfaced.
  unfoldable pub open_envelope :
      Element → Bool → Text → Text → Option Text → List XmlEvent → Option Element
  open_envelope msg live ts sender expected events = map_or (from_xml x events) none (λ env.
      if is_accepted (
        check_sce_binding clock env sender expected (some (sce_time_reference d clock msg live ts)))
      then map_or (parse (wrapped env.content_inner)) none
          (λ raw. some (strip_server_processed d raw))
      else none)

  any-keep-not :
      {A : Type 0} (p : A → Bool) (xs : List A) → any p (keep (λ c. not (p c)) xs) ≡ false
  any-keep-not p [] = refl
  any-keep-not p (c ∷ xs) = ground (arith, any-keep-not p xs)

  -- Whatever content a message surfaces, its envelope could be read, names the sender whose
  -- session decrypted it and the recipient that is expected, and is of the stanza's time; and the
  -- content is that of the envelope, without any element that only a server may set.
  pub open_envelope-safe :
      (l : DomLaws d) (msg : Element) (live : Bool) (ts sender kind counterpart own : Text)
      (direction : Direction) (events : List XmlEvent) {content : Element}
      → open_envelope msg live ts sender (expected_to kind direction counterpart own) events
        ≡ some content
      → (env : Envelope) × (raw : Element) × (from_xml x events ≡ some env)
        × (Same env.from sender)
        × (IsExpected (expected_to kind direction counterpart own) env.to)
        × ((t : ℕ) × (map_or env.time none clock.parse ≡ some t)
            × (t < clock.now + 604801000000000)
            × Near t (reference clock (some (sce_time_reference d clock msg live ts))))
        × (parse (wrapped env.content_inner) ≡ some raw)
        × (children content ≡ keep (λ c. not (forbidden d c)) (children raw))
        × (any (forbidden d) (children content) ≡ false)
  unfolding open_envelope
  open_envelope-safe l msg live ts sender kind counterpart own direction events {content} h =
      let expected = expected_to kind direction counterpart own in
      let stanza_ts = some (sce_time_reference d clock msg live ts) in
      elim (Option-cases (from_xml x events)) [
        | inl e ↦ absurd (ground arith)
        | inr (env, e) ↦
            let v = check_sce_binding clock env sender expected stanza_ts in
            elim (Bool-cases (is_accepted v)) [
              | inr bad ↦ absurd (ground arith)
              | inl ok ↦ elim (Option-cases (parse (wrapped env.content_inner))) [
                | inl e' ↦ absurd (ground arith)
                | inr (raw, e') ↦
                    let opened : some (strip_server_processed d raw) ≡ some content =
                      rw (e, ok, e') at h in
                    let same : strip_server_processed d raw ≡ content =
                      ap (λ o. unwrap_or o raw) opened in
                    let (from_ok, to_ok, time_ok) =
                      check_sce_binding-accepted clock env sender expected stanza_ts
                        (is_accepted-accepted v ok) in
                    let kept : children content ≡ keep (λ c. not (forbidden d c)) (children raw) =
                      ap children (sym same) ∙ (strip_server_processed-children d l raw).0 in
                    (
                      env,
                      raw,
                      e,
                      from_ok,
                      to_ok,
                      time_ok,
                      e',
                      kept,
                      ap (any (forbidden d)) kept ∙ any-keep-not (forbidden d) (children raw),
                    )
              ]
            ]
      ]
