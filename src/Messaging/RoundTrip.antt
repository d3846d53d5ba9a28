-- ===== src/Messaging/RoundTrip.antt =====
-- What a receiver shows of a message that shares several files: its caption.
use monocles_chat_desktop.Base.{
  ℕ, suc, ◌+◌, ◌≤◌, ◌<◌, true, false, ◌≡◌, refl, ◌∙◌, ap, sym, List, [], ◌∷◌, ◌++◌, Option, some,
  Text, codes, returned, if◌then◌else◌, all, All, is_empty, text_eq, arith, unwrap_or, length,
  length-append, append-nil, append_assoc, trim, trim_start, trim_end, is_whitespace,
}
use monocles_chat_desktop.Dom.{Dom, DomLaws}
use monocles_chat_desktop.Messaging.Cut.{uncovered, uncovered-ext, strip_fallback_spans-uncovered}
use monocles_chat_desktop.Messaging.Fallback.{Span, usize_max, strip_fallback_spans, collect}
use monocles_chat_desktop.Messaging.Files.{
  Json, append_urls, build_multi_file_body, build_multi_file_payloads, ns_oob, ns_sfs,
}
use monocles_chat_desktop.Messaging.Payloads.{
  both, doubled, covers-doubled, collect-build_multi_file_payloads,
}
use monocles_chat_desktop.Messaging.Spans.{covers, IsValid}

-- The spans begin at `k` or later.
abbrev From : ℕ → List Span → Type 0
From k [] = Unit
From k (s ∷ ss) = (k ≤ s.0) × From k ss

covers-From : (k : ℕ) (ss : List Span) (i : ℕ) → From k ss → i < k → covers ss i ≡ false
covers-From k [] i h l = refl
covers-From k (s ∷ ss) i h l = ground (arith, covers-From k ss i h.1 l)

From-weaken : (k k' : ℕ) (ss : List Span) → k' ≤ k → From k ss → From k' ss
From-weaken k k' [] h f = tt
From-weaken k k' (s ∷ ss) h f = (omega (arith, f.0), From-weaken k k' ss h f.1)

-- What stands in front of all spans stays.
uncovered-before :
    (ss : List Span) (i k : ℕ) (b t : Text)
    → i + length b ≡ k
    → From k ss
    → uncovered ss i (b ++ t) ≡ b ++ uncovered ss k t
uncovered-before ss i k [] t e h = let e' : i ≡ k = omega arith in rw e' refl
uncovered-before ss i k (c ∷ b) t e h = ground (
  arith,
  covers-From k ss i h (omega (arith, e)),
  uncovered-before ss (suc i) k b t (omega (arith, e)) h,
)

-- What a span covers goes, and behind it the other spans count.
uncovered-span :
    (a e : ℕ) (ss : List Span) (i : ℕ) (u t : Text)
    → a ≤ i
    → i + length u ≡ e
    → uncovered ((a, e) ∷ ss) i (u ++ t) ≡ uncovered ((a, e) ∷ ss) e t
uncovered-span a e ss i [] t h l = let l' : i ≡ e = omega arith in rw l' refl
uncovered-span a e ss i (c ∷ u) t h l =
    ground (arith, uncovered-span a e ss (suc i) u t (omega (arith, h)) (omega (arith, l)))

uncovered-past :
    (a e : ℕ) (ss : List Span) (i : ℕ) (t : Text)
    → e ≤ i
    → uncovered ((a, e) ∷ ss) i t ≡ uncovered ss i t
uncovered-past a e ss i [] h = refl
uncovered-past a e ss i (c ∷ t) h = ground (arith, uncovered-past a e ss (suc i) t)

-- What stands in front of a URL.
abbrev gap : Text → Text
gap body = if is_empty body then [] else 10 ∷ []

abbrev start_of : Text → Text
start_of body = if is_empty body then body else body ++ 10 ∷ []

-- What `append_urls` appends, and what of it no span covers.
abbrev appended : Text → List Text → Text
appended body [] = []
appended body (url ∷ urls) = gap body ++ (url ++ appended (start_of body ++ url) urls)

abbrev gaps : Text → List Text → Text
gaps body [] = []
gaps body (url ∷ urls) = gap body ++ gaps (start_of body ++ url) urls

start_of-gap : (body : Text) → start_of body ≡ body ++ gap body
start_of-gap [] = refl
start_of-gap (c ∷ cs) = refl

length-start_of : (body : Text) → length (start_of body) ≡ length body + length (gap body)
length-start_of body = ap length (start_of-gap body) ∙ length-append body (gap body)

append_urls-appended :
    (body : Text) (urls : List Text) → (append_urls body urls).0 ≡ body ++ appended body urls
unfolding append_urls
append_urls-appended body [] = sym (append-nil body)
append_urls-appended body (url ∷ urls) =
    let rest = appended (start_of body ++ url) urls in
    append_urls-appended (start_of body ++ url) urls
    ∙ append_assoc (start_of body) url rest
    ∙ ap (λ s. s ++ (url ++ rest)) (start_of-gap body)
    ∙ append_assoc body (gap body) (url ++ rest)

-- How far the body has grown.
length-append_urls :
    (body : Text) (urls : List Text) → length body ≤ length (append_urls body urls).0
length-append_urls body urls =
    rw (append_urls-appended body urls, length-append body (appended body urls)) (omega arith)

append_urls-From : (body : Text) (urls : List Text) → From (length body) (append_urls body urls).1
unfolding append_urls
append_urls-From body [] = tt
append_urls-From body (url ∷ urls) =
    let next = start_of body ++ url in
    let grown = length-start_of body in
    let longer = length-append (start_of body) url in
    (
      omega (arith, grown),
      From-weaken (length next) (length body) (append_urls next urls).1
          (omega (arith, grown, longer)) (append_urls-From next urls),
    )

append_urls-IsValid :
    (body : Text) (urls : List Text)
    → All (IsValid (length (append_urls body urls).0)) (append_urls body urls).1
unfolding append_urls
append_urls-IsValid body [] = tt
append_urls-IsValid body (url ∷ urls) =
    let next = start_of body ++ url in
    (
      (omega (arith, length-append (start_of body) url), length-append_urls next urls),
      append_urls-IsValid next urls,
    )

uncovered-append_urls :
    (body : Text) (urls : List Text)
    → uncovered (append_urls body urls).1 (length body) (appended body urls) ≡ gaps body urls
unfolding append_urls
uncovered-append_urls body [] = refl
uncovered-append_urls body (url ∷ urls) =
    let start = start_of body in
    let next = start ++ url in
    let st = length start in
    let en = length next in
    let more = (append_urls next urls).1 in
    let longer = length-append start url in
    let later = From-weaken en st more (omega (arith, longer)) (append_urls-From next urls) in
    let rest = appended next urls in
    uncovered-before ((st, en) ∷ more) (length body) st (gap body) (url ++ rest)
      (sym (length-start_of body)) (omega arith, later)
    ∙ ap (λ s. gap body ++ s)
        (uncovered-span st en more st url rest (omega arith) (sym longer)
          ∙ uncovered-past st en more en rest (omega arith)
          ∙ uncovered-append_urls next urls)

-- What stays of the whole body: the caption and line breaks.
uncovered-build :
    (caption : Option Text) (urls : List Text)
    → let r = build_multi_file_body caption urls in
      uncovered r.1 0 r.0 ≡ unwrap_or caption [] ++ gaps (unwrap_or caption []) urls
unfolding build_multi_file_body
uncovered-build caption urls =
    let body = unwrap_or caption [] in
    ap (uncovered (append_urls body urls).1 0) (append_urls-appended body urls)
    ∙ uncovered-before (append_urls body urls).1 0 (length body) body (appended body urls)
        (omega arith) (append_urls-From body urls)
    ∙ ap (λ s. body ++ s) (uncovered-append_urls body urls)

all-gaps : (body : Text) (urls : List Text) → all is_whitespace (gaps body urls) ≡ true
unfolding is_whitespace
all-gaps body [] = refl
all-gaps body (url ∷ urls) = ground (arith, all-gaps (start_of body ++ url) urls)

trim_end-all : (w : Text) → all is_whitespace w ≡ true → trim_end w ≡ []
unfolding trim_end
trim_end-all [] h = refl
trim_end-all (c ∷ w) h = ground (arith, trim_end-all w)

trim_end-append : (s w : Text) → all is_whitespace w ≡ true → trim_end (s ++ w) ≡ trim_end s
unfolding trim_end
trim_end-append [] w h = trim_end-all w h
trim_end-append (c ∷ s) w h = ground (arith, trim_end-append s w h)

trim_start-all : (w : Text) → all is_whitespace w ≡ true → trim_start w ≡ []
unfolding trim_start
trim_start-all [] h = refl
trim_start-all (c ∷ w) h = ground (arith, trim_start-all w)

-- White space behind a text goes with its end.
trim-append : (s w : Text) → all is_whitespace w ≡ true → trim (s ++ w) ≡ trim s
unfolding trim trim_start
trim-append [] w h = ap trim_end (trim_start-all w h)
trim-append (c ∷ s) w h = ground (arith, trim-append s w h, trim_end-append (c ∷ s) w h)

filled_marks :
    (body url : Text) (urls : List Text)
    → is_empty (doubled (append_urls body (url ∷ urls)).1) ≡ false
unfolding append_urls doubled
filled_marks body url urls = refl

-- Of a message that shares one file or more, as the sender builds its body and its payloads, the
-- receiver keeps the caption without the white space around it, or nothing if there was no
-- caption: every URL is marked, by numbers that read back, and every mark is removed.
pub strip_fallback_spans-build :
    (d : Dom) (l : DomLaws d) (j : Json) (caption : Option Text) (url : Text) (urls : List Text)
    (files : List j.Value) (origin_id : Text) (content body : d.Element)
    → d.children content
      ≡ body
        ∷ build_multi_file_payloads d j files
            (build_multi_file_body caption (url ∷ urls)).1
            origin_id
    → text_eq (d.name body) (codes "fallback") ≡ false
    → length (build_multi_file_body caption (url ∷ urls)).0 ≤ usize_max
    → strip_fallback_spans d content
        (build_multi_file_body caption (url ∷ urls)).0
        (ns_oob ∷ ns_sfs ∷ [])
      ≡ returned (trim (unwrap_or caption []))
strip_fallback_spans-build d l j caption url urls files origin_id content body e b h =
    let r = build_multi_file_body caption (url ∷ urls) in
    let start = unwrap_or caption [] in
    let valid : All (IsValid (length r.0)) r.1 =
      unfold build_multi_file_body in append_urls-IsValid start (url ∷ urls) in
    let marked : collect d both (length r.0) (d.children content) ≡ some (doubled r.1) =
      rw e
        (collect-build_multi_file_payloads d l j (length r.0) files r.1 origin_id body h valid b) in
    let filled : is_empty (doubled r.1) ≡ false =
      unfold build_multi_file_body in filled_marks start url urls in
    strip_fallback_spans-uncovered d content r.0 both (doubled r.1) marked
    ∙ rw filled (
        ap (λ s. returned (trim s))
          (uncovered-ext (doubled r.1) r.1 (covers-doubled r.1) 0 r.0
            ∙ uncovered-build caption (url ∷ urls))
        ∙ ap returned (trim-append start (gaps start (url ∷ urls)) (all-gaps start (url ∷ urls))))
