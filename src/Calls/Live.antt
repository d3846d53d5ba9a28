-- ===== src/Calls/Live.antt =====
-- What the arms of `handle_iq` do to the sessions that are not live.
use monocles_chat_desktop.Base.{
  Bool, true, false, ◌≡◌, refl, ◌∙◌, ap, List, [], ◌∷◌, ◌++◌, Option, none, some, Text, inl, inr,
  arith, Option-cases, codes, is_some, map_or, lookup, insert, lookup-insert, lookup-remove,
  lookup-remove_self, text_eq_iff,
}
use monocles_chat_desktop.Calls.Created.{emit_conference_calls}
use monocles_chat_desktop.Calls.Members.{set_member_state}
use monocles_chat_desktop.Calls.Session.{
  Negotiation, ns_ice, negotiate, contents_of, content_accept, content_add, transport_info,
  session_terminate,
}
use monocles_chat_desktop.Calls.Stanzas.{ns_jingle}
use monocles_chat_desktop.Calls.State.{
  bare, ActiveCall, Calls, Env, World, M, skip, for_each, emit, terminate_local, log_call_end,
  add_remote_ice, engine, effect,
}
use monocles_chat_desktop.Dom.{Dom, get_child}

abbrev pub is_live : {E : Type 0} → Text → World E → Bool
is_live sid w = is_some (lookup sid w.calls.active)

module _ {E : Type 0} (k : Text) where
  pub map_or-is_live :
      {A : Type 0} (o : Option A) (f : A → M E (Unit {0})) (w : World E)
      → is_live k w ≡ false
      → ((a : A) → is_live k (f a w).1 ≡ false)
      → is_live k (map_or o skip f w).1 ≡ false
  map_or-is_live none f w q h = q
  map_or-is_live (some a) f w q h = h a

  pub for_each_calls :
      {A : Type 0} (l : List A) (f : A → M E (Unit {0}))
      → ((a : A) (w : World E) → (f a w).1.calls ≡ w.calls)
      → (w : World E) → (for_each l f w).1.calls ≡ w.calls
  unfolding for_each
  for_each_calls [] f h w = refl
  for_each_calls (a ∷ l) f h w = for_each_calls l f h (f a w).1 ∙ h a w

  pub terminate_local-is_live :
      (sid : Text) (w : World E) → is_live k w ≡ false → is_live k (terminate_local sid w).1 ≡ false
  unfolding terminate_local
  terminate_local-is_live sid w q = ground (arith, lookup-remove sid k w.calls.active)

  pub terminate_local_ends : (w : World E) → is_live k (terminate_local k w).1 ≡ false
  unfolding terminate_local
  terminate_local_ends w = ground (arith, lookup-remove_self k w.calls.active)

  pub log_call_end-is_live :
      (sid : Text) (w : World E) → is_live k w ≡ false → is_live k (log_call_end sid w).1 ≡ false
  unfolding log_call_end
  log_call_end-is_live sid w q = ground arith

  -- Changing the record of a live session starts none.
  pub insert-is_live :
      (sid : Text) (c : Calls E) (a : ActiveCall E)
      → is_some (lookup sid c.active) ≡ true
      → is_some (lookup k c.active) ≡ false
      → is_some (lookup k (insert sid a c.active)) ≡ false
  insert-is_live sid c a h q = ground (arith, lookup-insert sid k a c.active, text_eq_iff sid k)

module _ (d : Dom) (env : Env) (n : Negotiation d.Element) (k : Text) where
  open d use {Element}
  open n use {contents_to_sdp, candidate_to_sdp, decrypt}

  pub negotiate-is_live :
      (offer : Bool) (sid from : Text) (owned : List Element) (w : World Element)
      → is_live k w ≡ false
      → is_live k (negotiate d env n offer sid from owned w).1 ≡ false
  unfolding negotiate
  negotiate-is_live offer sid from owned w q =
      let r = decrypt (bare from) owned in
      elim (Option-cases (lookup sid w.calls.active)) [
        | inl e ↦ ground arith
        | inr (a, e) ↦
            let seen : ActiveCall Element = record a {
              remote_contents = r.0;
              peer_used_omemo = is_some r.1;
            } in
            ground (arith, insert-is_live k sid w.calls seen (ap is_some e) q)
      ]

  pub content_accept-is_live :
      (sid from : Text) (jingle : Element) (w : World Element)
      → is_live k w ≡ false
      → is_live k (content_accept d env n sid from jingle w).1 ≡ false
  unfolding content_accept emit
  content_accept-is_live sid from jingle w q =
      let full = λ (a : ActiveCall Element).
        a.remote_contents ++ (decrypt (bare from) (contents_of d env n jingle)).0 in
      elim (Option-cases (lookup sid w.calls.active)) [
        | inl e ↦ ground arith
        | inr (a, e) ↦
            let up : ActiveCall Element = record a { remote_contents = full a; video = true } in
            ground (arith, insert-is_live k sid w.calls up (ap is_some e) q)
      ]

  pub content_add-is_live :
      (sid from : Text) (jingle : Element) (w : World Element)
      → is_live k w ≡ false
      → is_live k (content_add d env n sid from jingle w).1 ≡ false
  unfolding content_add
  content_add-is_live sid from jingle w q =
      let new = (decrypt (bare from) (contents_of d env n jingle)).0 in
      elim (Option-cases (lookup sid w.calls.active)) [
        | inl e ↦ ground arith
        | inr (a, e) ↦ ground (
          arith,
          insert-is_live k sid w.calls (record a { pending_video = new }) (ap is_some e) q,
        )
      ]

  pub session_terminate-is_live :
      (sid from : Text) (w : World Element)
      → is_live k w ≡ false
      → is_live k (session_terminate d env n sid from w).1 ≡ false
  unfolding session_terminate emit set_member_state
  session_terminate-is_live sid from w q =
      let q' = log_call_end-is_live k sid _ (terminate_local-is_live k sid w q) in
      elim (Option-cases (map_or (lookup sid w.calls.active) none (λ a. a.room))) [
        | inl e ↦ rw (e, session_terminate) q'
        | inr (room, e) ↦ rw (e, session_terminate, emit_conference_calls room) q'
      ]

  pub candidate_calls :
      (sid : Text) (c : Element) (w : World Element)
      → (map_or
          (candidate_to_sdp c)
          skip
          (λ line. effect (engine sid (add_remote_ice (codes "candidate:" ++ line))))
          w).1.calls
        ≡ w.calls
  candidate_calls sid c w = ground arith

  pub transport_info-is_live :
      (sid : Text) (jingle : Element) (w : World Element)
      → is_live k w ≡ false
      → is_live k (transport_info d env n sid jingle w).1 ≡ false
  unfolding transport_info
  transport_info-is_live sid jingle w q =
      map_or-is_live k (get_child d (codes "content") ns_jingle jingle) _ w q (λ content.
        map_or-is_live k (get_child d (codes "transport") ns_ice content) _ w q (λ transport.
          map_or-is_live k (lookup sid w.calls.active) _ w q (λ a.
            ap (λ (c : Calls Element). is_some (lookup k c.active))
              (for_each_calls k _ _ (candidate_calls sid) w)
            ∙ q)))
