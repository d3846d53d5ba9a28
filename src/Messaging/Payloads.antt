-- ===== src/Messaging/Payloads.antt =====
-- The fallbacks of a message that shares files, as its receiver collects them.
use monocles_chat_desktop.Base.{
  ℕ, zero, suc, ◌+◌, ◌/◌, ◌%◌, ◌≤◌, true, false, ◌&&◌, ◌≡◌, refl, ◌∙◌, ap, List, [], ◌∷◌, none,
  some, Text, codes, all, any, All, find, is_empty, leb, map_or, text_eq, arith, lookup, Map,
  Option-cases, inl, inr,
}
use monocles_chat_desktop.Dom.{Dom, DomLaws, attr}
use monocles_chat_desktop.Messaging.Fallback.{
  Span, ns_fallback, parse_usize, usize_max, is_fallback_for, marked, push_valid, collect,
}
use monocles_chat_desktop.Messaging.Files.{
  Json, fallback_for, fallbacks, sharing, sharings, build_multi_file_payloads, ns_oob, ns_sfs,
}
use monocles_chat_desktop.Messaging.Spans.{covers, IsValid}
use monocles_chat_desktop.Uri.Decimal.{
  show_onto, show_nat, digits, is_digit, digits-show_nat, show_nat-digits,
}

show_onto-filled :
    (fuel n : ℕ) (acc : Text) → is_empty acc ≡ false → is_empty (show_onto fuel n acc) ≡ false
unfolding show_onto
show_onto-filled zero n acc h = h
show_onto-filled (suc fuel) n acc h =
    ground (arith, show_onto-filled fuel (n / 10) ((b'0' + n % 10) ∷ acc) refl)

show_nat-filled : (n : ℕ) → is_empty (show_nat n) ≡ false
unfolding show_nat show_onto
show_nat-filled n = ground (arith, show_onto-filled n (n / 10) ((b'0' + n % 10) ∷ []) refl)

parse_usize-digits :
    (s : Text) (n : ℕ)
    → all is_digit s ≡ true
    → digits 0 s ≡ some n
    → is_empty s ≡ false
    → n ≤ usize_max
    → parse_usize s ≡ some n
unfolding parse_usize
parse_usize-digits [] n a d f h = ground arith
parse_usize-digits (c ∷ cs) n a d f h = ground arith

parse_usize-show_nat : (n : ℕ) → n ≤ usize_max → parse_usize (show_nat n) ≡ some n
parse_usize-show_nat n h =
    parse_usize-digits (show_nat n) n (show_nat-digits n) (digits-show_nat n) (show_nat-filled n) h

-- Each span twice, once for each namespace.
unfoldable pub doubled : List Span → List Span
doubled [] = []
doubled (s ∷ ss) = s ∷ s ∷ doubled ss

pub covers-doubled : (ss : List Span) (i : ℕ) → covers (doubled ss) i ≡ covers ss i
unfolding doubled
covers-doubled [] i = refl
covers-doubled (s ∷ ss) i = ground (arith, covers-doubled ss i)

abbrev pub both : List Text
both = ns_oob ∷ ns_sfs ∷ []

module _ (d : Dom) (l : DomLaws d) where
  open d use {Element, name, children}

  marked-fallback_for :
      (len : ℕ) (s : Span) (n ns : Text)
      → s.0 ≤ usize_max
      → s.1 ≤ usize_max
      → marked d len
          (d.build n ns ((codes "start", show_nat s.0) ∷ (codes "end", show_nat s.1) ∷ []) [] [])
        ≡ s
  unfolding marked attr lookup text_eq
  marked-fallback_for len s n ns h h' =
      rw
        (l.attrs-build n ns ((codes "start", show_nat s.0) ∷ (codes "end", show_nat s.1) ∷ []) []
          [])
        (rw (parse_usize-show_nat s.0 h, parse_usize-show_nat s.1 h') refl)

  abbrev range_of : Span → Element
  range_of s =
      d.build (codes "body") ns_fallback
        ((codes "start", show_nat s.0) ∷ (codes "end", show_nat s.1) ∷ []) [] []

  find-range_of :
      (ns : Text) (s : Span)
      → find (λ c. text_eq (name c) (codes "body")) (children (fallback_for d ns s))
        ≡ some (range_of s)
  unfolding text_eq
  find-range_of ns s =
      rw
        (
          l.children-build (codes "fallback") ns_fallback ((codes "for", ns) ∷ []) (range_of s ∷ [])
              [],
          l.name-build (codes "body") ns_fallback
              ((codes "start", show_nat s.0) ∷ (codes "end", show_nat s.1) ∷ []) [] [],
        )
        refl

  is_fallback_for-fallback_for :
      (ns : Text) (s : Span)
      → any (text_eq ns) both ≡ true
      → is_fallback_for d both (fallback_for d ns s) ≡ true
  unfolding is_fallback_for attr lookup text_eq
  is_fallback_for-fallback_for ns s h =
      let ats : Map Text = (codes "for", ns) ∷ [] in
      let cs = range_of s ∷ [] in
      rw
        (
          l.name-build (codes "fallback") ns_fallback ats cs [],
          l.ns-build (codes "fallback") ns_fallback ats cs [],
          l.attrs-build (codes "fallback") ns_fallback ats cs [],
        )
        h

  collect-fallback_for :
      (len : ℕ) (ns : Text) (s : Span) (rest : List Element)
      → any (text_eq ns) both ≡ true
      → s.0 ≤ usize_max
      → s.1 ≤ usize_max
      → collect d both len (fallback_for d ns s ∷ rest)
        ≡ map_or (collect d both len rest) none (λ spans. some (push_valid len s spans))
  unfolding collect
  collect-fallback_for len ns s rest h a b =
      rw (is_fallback_for-fallback_for ns s h, find-range_of ns s)
        (ap
          (λ (m : Span).
            map_or (collect d both len rest) none (λ spans. some (push_valid len m spans)))
          (marked-fallback_for len s (codes "body") ns_fallback a b))

  push_valid_ok :
      (len : ℕ) (s : Span) (spans : List Span) → IsValid len s → push_valid len s spans ≡ s ∷ spans
  push_valid_ok len s spans v =
      let ok : (leb s.0 s.1 && leb s.1 len) ≡ true = ground arith in rw ok refl

  collect-fallbacks :
      (len : ℕ) (spans : List Span) (rest : List Element)
      → len ≤ usize_max
      → All (IsValid len) spans
      → collect d both len rest ≡ some []
      → collect d both len (fallbacks d spans rest) ≡ some (doubled spans)
  unfolding fallbacks doubled text_eq
  collect-fallbacks len [] rest h v e = e
  collect-fallbacks len (s ∷ spans) rest h v e =
      let more = fallbacks d spans rest in
      let later = collect-fallbacks len spans rest h v.1 e in
      let small : s.0 ≤ usize_max = omega (arith, v.0) in
      let small' : s.1 ≤ usize_max = omega (arith, v.0) in
      let twin = collect-fallback_for len ns_sfs s more refl small small' in
      let once : collect d both len (fallback_for d ns_sfs s ∷ more) ≡ some (s ∷ doubled spans) =
        twin ∙ rw (later, push_valid_ok len s (doubled spans) v.0) refl in
      collect-fallback_for len ns_oob s (fallback_for d ns_sfs s ∷ more) refl small small'
      ∙ rw (once, push_valid_ok len s (s ∷ doubled spans) v.0) refl

  -- What is no fallback is passed over.
  collect-other :
      (len : ℕ) (e : Element) (rest : List Element)
      → text_eq (name e) (codes "fallback") ≡ false
      → collect d both len (e ∷ rest) ≡ collect d both len rest
  unfolding collect is_fallback_for
  collect-other len e rest h = rw h refl

  module _ (j : Json) where
    sharing_name :
        (origin_id : Text) (i : ℕ) (file : j.Value) (url : Text)
        → text_eq (name (sharing d j origin_id i file url)) (codes "fallback") ≡ false
    unfolding sharing text_eq
    sharing_name origin_id i file url =
        ap (λ n. text_eq n (codes "fallback")) (l.name-build (codes "file-sharing") ns_sfs _ _ _)

    collect-sharings :
        (len : ℕ) (origin_id : Text) (i : ℕ) (files : List j.Value)
        → collect d both len (sharings d j origin_id i files) ≡ some []
    unfolding sharings collect
    collect-sharings len origin_id i [] = refl
    collect-sharings len origin_id i (file ∷ files) =
        let more = sharings d j origin_id (suc i) files in
        let later = collect-sharings len origin_id (suc i) files in
        elim (Option-cases (j.as_str (codes "url") file)) [
          | inl e ↦ rw e later
          | inr (url, e) ↦ rw e (
              collect-other len (sharing d j origin_id i file url) more
                (sharing_name origin_id i file url)
              ∙ later)
        ]

    -- The receiver collects each span of the sender twice.
    pub collect-build_multi_file_payloads :
        (len : ℕ) (files : List j.Value) (spans : List Span) (origin_id : Text) (body : Element)
        → len ≤ usize_max
        → All (IsValid len) spans
        → text_eq (name body) (codes "fallback") ≡ false
        → collect d both len (body ∷ build_multi_file_payloads d j files spans origin_id)
          ≡ some (doubled spans)
    unfolding build_multi_file_payloads
    collect-build_multi_file_payloads len files spans origin_id body h v b =
        collect-other len body _ b
        ∙ collect-fallbacks len spans (sharings d j origin_id 0 files) h v
            (collect-sharings len origin_id 0 files)
