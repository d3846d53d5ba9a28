-- ===== src/Messaging/Files.antt =====
-- `build_multi_file_body` and `build_multi_file_payloads`: a message that shares several files.
use monocles_chat_desktop.Base.{
  ℕ, suc, List, [], ◌∷◌, ◌++◌, Option, some, Text, codes, if◌then◌else◌, is_empty, length, map_or,
  unwrap_or,
}
use monocles_chat_desktop.Dom.{Dom}
use monocles_chat_desktop.Messaging.Fallback.{Span, ns_fallback}
use monocles_chat_desktop.Uri.Decimal.{ℤ, pos, show_nat, to_string}

abbrev pub ns_oob : Text
ns_oob = codes "jabber:x:oob"

abbrev pub ns_sfs : Text
ns_sfs = codes "urn:xmpp:sfs:0"

abbrev pub ns_file_meta : Text
ns_file_meta = codes "urn:xmpp:file:metadata:0"

abbrev pub ns_url_data : Text
ns_url_data = codes "http://jabber.org/protocol/url-data"

-- What is read of a value of `serde_json`: a member that is a text, and one that is an `i64`.
pub record Json : Type 1 where
  pub Value : Type 0
  pub as_str : Text → Value → Option Text
  pub as_i64 : Text → Value → Option ℤ

-- The loop over the URLs, with the body so far.
unfoldable pub append_urls : Text → List Text → Text × List Span
append_urls body [] = (body, [])
append_urls body (url ∷ urls) =
    let start = if is_empty body then body else body ++ 10 ∷ [] in
    let more = append_urls (start ++ url) urls in
    (more.0, (length start, length (start ++ url)) ∷ more.1)

unfoldable pub build_multi_file_body : Option Text → List Text → Text × List Span
unfolding append_urls
build_multi_file_body caption urls = append_urls (unwrap_or caption []) urls

module _ (d : Dom) where
  open d use {Element, build}

  abbrev pub plain : Text → Text → Text → Element
  plain name ns text = build name ns [] [] text

  abbrev pub fallback_for : Text → Span → Element
  fallback_for ns (start, end) =
      build (codes "fallback") ns_fallback ((codes "for", ns) ∷ [])
        (build (codes "body") ns_fallback
            ((codes "start", show_nat start) ∷ (codes "end", show_nat end) ∷ []) [] []
          ∷ [])
        []

  -- The two fallbacks of each span, in front of what follows.
  unfoldable pub fallbacks : List Span → List Element → List Element
  fallbacks [] rest = rest
  fallbacks (s ∷ spans) rest = fallback_for ns_oob s ∷ fallback_for ns_sfs s ∷ fallbacks spans rest

  module _ (j : Json) where
    open j use {Value, as_str, as_i64}

    abbrev pub tag : Text → Option Text → List Element
    tag name value =
        map_or value [] (λ v. if is_empty v then [] else plain name ns_file_meta v ∷ [])

    abbrev pub size_tag : Option ℤ → List Element
    size_tag (some (pos (suc n))) = plain (codes "size") ns_file_meta (to_string (pos (suc n))) ∷ []
    size_tag _ = []

    unfoldable pub sharing : Text → ℕ → Value → Text → Element
    sharing origin_id i file url =
        build (codes "file-sharing") ns_sfs
          ((codes "disposition", codes "inline")
            ∷ (codes "id", origin_id ++ (b'-' ∷ show_nat i))
            ∷ [])
          (build (codes "file") ns_file_meta []
              (tag (codes "name") (as_str (codes "name") file)
                ++ (tag (codes "media-type") (as_str (codes "mime") file)
                    ++ size_tag (as_i64 (codes "size") file)))
              []
            ∷ build (codes "sources") ns_sfs []
                (build (codes "url-data") ns_url_data ((codes "target", url) ∷ []) [] [] ∷ []) []
            ∷ [])
          []

    -- The loop over the files, the first of which has the number `i`.
    unfoldable pub sharings : Text → ℕ → List Value → List Element
    unfolding sharing
    sharings origin_id i [] = []
    sharings origin_id i (file ∷ files) =
        let rest = sharings origin_id (suc i) files in
        map_or (as_str (codes "url") file) rest (λ url. sharing origin_id i file url ∷ rest)

    unfoldable pub build_multi_file_payloads : List Value → List Span → Text → List Element
    unfolding fallbacks sharings
    build_multi_file_payloads files spans origin_id = fallbacks spans (sharings origin_id 0 files)
