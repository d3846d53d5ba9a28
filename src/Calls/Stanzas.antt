-- ===== src/Calls/Stanzas.antt =====
-- The stanzas of jingle.rs and muji.rs, and `parse_muji_state`.
use monocles_chat_desktop.Base.{
  ℕ, Bool, true, false, List, [], ◌∷◌, ◌++◌, Option, none, some, Text, Map, codes, if◌then◌else◌,
  any, text_eq,
}
use monocles_chat_desktop.Calls.State.{MujiState, preparing, ready, M, Env, send}
use monocles_chat_desktop.Dom.{Dom, attr, get_child, has_child}
use monocles_chat_desktop.Uri.Decimal.{show_nat}

abbrev pub ns_jmi : Text
ns_jmi = codes "urn:xmpp:jingle-message:0"

abbrev pub ns_rtp : Text
ns_rtp = codes "urn:xmpp:jingle:apps:rtp:1"

abbrev pub ns_jingle : Text
ns_jingle = codes "urn:xmpp:jingle:1"

abbrev pub ns_hints : Text
ns_hints = codes "urn:xmpp:hints"

abbrev pub ns_omemo_dtls : Text
ns_omemo_dtls = codes "http://gultsch.de/xmpp/drafts/omemo/dlts-srtp-verification"

abbrev pub ns_receipts : Text
ns_receipts = codes "urn:xmpp:receipts"

abbrev pub ns_client : Text
ns_client = codes "jabber:client"

abbrev pub ns_muji : Text
ns_muji = codes "urn:xmpp:jingle:muji:0"

abbrev pub ns_muc_user : Text
ns_muc_user = codes "http://jabber.org/protocol/muc#user"

-- An attribute that is written only where there is a value.
abbrev pub optional : Text → Option Text → Map Text
optional k none = []
optional k (some v) = (k, v) ∷ []

module _ (d : Dom) where
  open d use {Element, build, name, children}

  -- An element with no text.
  abbrev pub el : Text → Text → Map Text → List Element → Element
  el n s ats cs = build n s ats cs []

  abbrev device_child : Option ℕ → List Element
  device_child none = []
  device_child (some dev) =
      el (codes "device") ns_omemo_dtls ((codes "id", show_nat dev) ∷ []) [] ∷ []

  unfoldable pub jmi_with_device : Text → Text → Text → Option ℕ → Element
  jmi_with_device to action sid own_device =
      let intent = el action ns_jmi ((codes "id", sid) ∷ []) (device_child own_device) in
      el (codes "message") ns_client ((codes "to", to) ∷ (codes "type", codes "chat") ∷ [])
        (intent ∷ el (codes "store") ns_hints [] [] ∷ [])

  unfoldable pub jmi : Text → Text → Text → Element
  unfolding jmi_with_device
  jmi to action sid = jmi_with_device to action sid none

  abbrev media_description : Text → Element
  media_description kind = el (codes "description") ns_rtp ((codes "media", kind) ∷ []) []

  -- The message that `propose` sends.
  unfoldable pub propose_message : Text → Text → Bool → Element
  propose_message to sid video =
      let media =
        media_description (codes "audio")
        ∷ (if video then media_description (codes "video") ∷ [] else []) in
      el (codes "message") ns_client ((codes "to", to) ∷ (codes "type", codes "chat") ∷ []) (
        el (codes "propose") ns_jmi ((codes "id", sid) ∷ []) media
        ∷ el (codes "request") ns_receipts [] []
        ∷ el (codes "store") ns_hints [] []
        ∷ [])

  unfoldable pub jingle_iq : Text → Text → Text → Text → Text → List Element → Element
  jingle_iq id to sid initiator action body =
      el (codes "iq") ns_client
        ((codes "type", codes "set") ∷ (codes "to", to) ∷ (codes "id", id) ∷ [])
        (el (codes "jingle") ns_jingle
            ((codes "action", action) ∷ (codes "sid", sid) ∷ (codes "initiator", initiator) ∷ [])
            body
          ∷ [])

  -- The `session-terminate` of a call that ended as it should.
  unfoldable pub terminate_iq : Text → Text → Text → Element
  unfolding jingle_iq
  terminate_iq id to sid =
      jingle_iq id to sid [] (codes "session-terminate")
        (el (codes "reason") ns_jingle [] (el (codes "success") ns_jingle [] [] ∷ []) ∷ [])

  unfoldable pub ack : Env → Element → M Element Bool
  unfolding attr
  ack env iq = send env (
      el (codes "iq") ns_client
        ((codes "type", codes "result")
          ∷ (optional (codes "to") (attr d (codes "from") iq)
              ++ optional (codes "id") (attr d (codes "id") iq)))
        [])

  abbrev payload_type : Text → Text → Text → Map Text → Element
  payload_type id kind clockrate more =
      el (codes "payload-type") ns_rtp
        ((codes "id", id) ∷ (codes "name", kind) ∷ (codes "clockrate", clockrate) ∷ more) []

  abbrev muji_content : Text → Text → Element → Element
  muji_content label kind pt =
      el (codes "content") ns_muji
        ((codes "creator", codes "initiator") ∷ (codes "name", label) ∷ [])
        (el (codes "description") ns_rtp ((codes "media", kind) ∷ []) (pt ∷ []) ∷ [])

  -- The children of the payload.
  abbrev muji_contents : Bool → Bool → List Element
  muji_contents false video = el (codes "preparing") ns_muji [] [] ∷ []
  muji_contents true video =
      muji_content (codes "voice") (codes "audio") (
        payload_type (codes "111") (codes "opus") (codes "48000")
          ((codes "channels", codes "2") ∷ []))
      ∷ (if video
          then muji_content (codes "webcam") (codes "video")
              (payload_type (codes "96") (codes "VP8") (codes "90000") [])
            ∷ []
          else [])

  abbrev shown : Option ℕ → Option Text
  shown none = none
  shown (some n) = some (show_nat n)

  unfoldable pub muji_payload : Bool → Bool → Option ℕ → Element
  muji_payload prepared video device =
      el (codes "muji") ns_muji (optional (codes "device") (shown device))
        (muji_contents prepared video)

  abbrev present : Option Element → List Element
  present none = []
  present (some e) = e ∷ []

  -- `caps` is the `<c/>` of caps.rs, whose hash the `sha1` and `base64` crates compute.
  unfoldable pub muji_presence : Element → Text → Text → Option Element → Element
  muji_presence caps room nick muji =
      el (codes "presence") ns_client ((codes "to", room ++ b'/' ∷ nick) ∷ []) (caps ∷ present muji)

  unfoldable pub send_muji_presence : Env → Element → Text → Text → Option Element → M Element Bool
  unfolding muji_presence
  send_muji_presence env caps room nick muji = send env (muji_presence caps room nick muji)

  unfoldable pub parse_muji_state : Element → Option MujiState
  unfolding get_child text_eq
  parse_muji_state presence = elim (get_child d (codes "muji") ns_muji presence) [
    | none ↦ none
    | some muji ↦
        if has_child d (codes "preparing") ns_muji muji
        then some preparing
        else if any (λ c. text_eq (name c) (codes "content")) (children muji)
        then some ready
        else some preparing
  ]
