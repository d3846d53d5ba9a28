-- ===== src/Calls/Announce.antt =====
-- What a peer reads in the presence that we send.
use monocles_chat_desktop.Base.{
  ℕ, Bool, true, false, ◌≡◌, List, Option, none, some, Text, codes, text_eq, find, any, not, ◌&&◌,
  Map, is_some,
}
use monocles_chat_desktop.Calls.State.{MujiState, preparing, ready}
use monocles_chat_desktop.Calls.Stanzas.{muji_payload, muji_presence, parse_muji_state, ns_muji}
use monocles_chat_desktop.Dom.{Dom, DomLaws, get_child}

-- The state that our payload stands for.
abbrev pub announced : Bool → MujiState
announced true = ready
announced false = preparing

module _ (d : Dom) (laws : DomLaws d) where
  open d use {Element, name, children}
  open laws use {name-build, ns-build, attrs-build, children-build}

  get_child-build :
      (k v n s : Text) (ats : Map Text) (cs : List Element) (t : Text)
      → get_child d k v (d.build n s ats cs t)
        ≡ find (λ c. text_eq (name c) k && text_eq (d.ns c) v) cs
  unfolding get_child
  get_child-build k v n s ats cs t = rw children-build

  muji_child :
      (caps : Element) (room nick : Text) (prepared video : Bool) (device : Option ℕ)
      → text_eq (name caps) (codes "muji") ≡ false
      → get_child d
          (codes "muji")
          ns_muji
          (muji_presence d caps room nick (some (muji_payload d prepared video device)))
        ≡ some (muji_payload d prepared video device)
  unfolding muji_presence muji_payload text_eq
  muji_child caps room nick prepared video device h =
      rw get_child-build (simp (h, name-build, ns-build))

  no_muji_child :
      (caps : Element) (room nick : Text)
      → text_eq (name caps) (codes "muji") ≡ false
      → get_child d (codes "muji") ns_muji (muji_presence d caps room nick none) ≡ none
  unfolding muji_presence
  no_muji_child caps room nick h = rw get_child-build (simp h)

  payload_preparing :
      (prepared video : Bool) (device : Option ℕ)
      → is_some (get_child d (codes "preparing") ns_muji (muji_payload d prepared video device))
        ≡ not prepared
  unfolding muji_payload text_eq
  payload_preparing true true device = rw get_child-build (simp (name-build, ns-build))
  payload_preparing true false device = rw get_child-build (simp (name-build, ns-build))
  payload_preparing false video device = rw get_child-build (simp (name-build, ns-build))

  payload_content :
      (video : Bool) (device : Option ℕ)
      → any (λ c. text_eq (name c) (codes "content")) (children (muji_payload d true video device))
        ≡ true
  unfolding muji_payload text_eq
  payload_content true device = simp (children-build, name-build)
  payload_content false device = simp (children-build, name-build)

  -- A peer that parses our presence reads what we announced: `ready` once we are prepared,
  -- `preparing` before, and nothing when we send no payload; the `<c/>` beside it is passed over.
  pub parse_muji_presence :
      (caps : Element) (room nick : Text) (video : Bool) (device : Option ℕ) (prepared : Bool)
      → text_eq (name caps) (codes "muji") ≡ false
      → (parse_muji_state d
            (muji_presence d caps room nick (some (muji_payload d prepared video device)))
          ≡ some (announced prepared))
        × (parse_muji_state d (muji_presence d caps room nick none) ≡ none)
  parse_muji_presence caps room nick video device true h = (
    unfold parse_muji_state in
        rw (
          parse_muji_state,
          muji_child caps room nick true video device h,
          payload_preparing true video device,
          payload_content video device,
        ),
    unfold parse_muji_state in rw (no_muji_child caps room nick h, parse_muji_state),
  )
  parse_muji_presence caps room nick video device false h = (
    unfold parse_muji_state in
        rw (
          parse_muji_state,
          muji_child caps room nick false video device h,
          payload_preparing false video device,
        ),
    unfold parse_muji_state in rw (no_muji_child caps room nick h, parse_muji_state),
  )
