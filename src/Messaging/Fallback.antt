-- ===== src/Messaging/Fallback.antt =====
-- `strip_fallback_spans`: the removal of the spans of a body that its fallback elements mark.
use monocles_chat_desktop.Base.{
  ℕ, Bool, false, ◌&&◌, ◌||◌, List, [], ◌∷◌, ◌++◌, Option, none, some, Text, codes, Outcome,
  returned, panicked, ◌>>=◌, if◌then◌else◌, any, find, is_empty, leb, ltb, ◌==◌, length, take, drop,
  text_eq, trim, map_or, unwrap_or,
}
use monocles_chat_desktop.Dom.{Dom, attr}
use monocles_chat_desktop.Uri.Decimal.{magnitude}

abbrev pub ns_fallback : Text
ns_fallback = codes "urn:xmpp:fallback:0"

-- A range of characters, without its end.
abbrev pub Span : Type 0
Span = ℕ × ℕ

-- `str::parse::<usize>`, of 64 bits.
unfoldable pub parse_usize : Text → Option ℕ
unfolding magnitude
parse_usize [] = none
parse_usize (c ∷ cs) = magnitude 18446744073709551615 (if c == b'+' then cs else c ∷ cs)

abbrev pub usize_max : ℕ
usize_max = 18446744073709551615

abbrev pub number : Option Text → Option ℕ
number none = none
number (some s) = parse_usize s

abbrev pub push_valid : ℕ → Span → List Span → List Span
push_valid len s spans = if leb s.0 s.1 && leb s.1 len then s ∷ spans else spans

module _ (d : Dom) where
  open d use {Element, name, ns, children}

  -- A fallback element for one of the namespaces.
  unfoldable pub is_fallback_for : List Text → Element → Bool
  unfolding text_eq attr
  is_fallback_for for_ns fb =
      text_eq (name fb) (codes "fallback")
      && text_eq (ns fb) ns_fallback
      && map_or (attr d (codes "for") fb) false (λ f. any (text_eq f) for_ns)

  -- What the `<body/>` of a fallback marks in a body of this length.
  unfoldable pub marked : ℕ → Element → Span
  unfolding parse_usize attr
  marked len range = (
    unwrap_or (number (attr d (codes "start") range)) 0,
    unwrap_or (number (attr d (codes "end") range)) len,
  )

  -- The spans of the fallbacks; `none` if one of them has no range, and marks the entire body.
  unfoldable pub collect : List Text → ℕ → List Element → Option (List Span)
  unfolding is_fallback_for marked text_eq
  collect for_ns len [] = some []
  collect for_ns len (fb ∷ fbs) =
      let rest = collect for_ns len fbs in
      if is_fallback_for for_ns fb
      then map_or (find (λ c. text_eq (name c) (codes "body")) (children fb)) none
          (λ range. map_or rest none (λ spans. some (push_valid len (marked len range) spans)))
      else rest

-- The order of the pairs.
abbrev pub span_le : Span → Span → Bool
span_le s t = ltb s.0 t.0 || (s.0 == t.0 && leb s.1 t.1)

unfoldable pub insert_span : Span → List Span → List Span
insert_span s [] = s ∷ []
insert_span s (t ∷ ts) = let rest = insert_span s ts in if span_le s t then s ∷ t ∷ ts else t ∷ rest

-- `sort_unstable`: equal pairs cannot be told apart.
unfoldable pub sort : List Span → List Span
unfolding insert_span
sort [] = []
sort (s ∷ ss) = insert_span s (sort ss)

-- One span onto the merged ones, whose last comes first.
abbrev pub merge_span : List Span → Span → List Span
merge_span [] s = s ∷ []
merge_span ((a, b) ∷ m) (start, end) =
    if leb start b then (a, if leb b end then end else b) ∷ m else (start, end) ∷ (a, b) ∷ m

-- The loop that merges, with what it has pushed so far.
unfoldable pub merge : List Span → List Span → List Span
merge merged [] = merged
merge merged (s ∷ ss) = merge (merge_span merged s) ss

-- `Vec::drain`, which panics out of range.
abbrev pub drain : ℕ → ℕ → Text → Outcome Text
drain start end out =
    if leb start end && leb end (length out)
    then returned (take start out ++ drop end out)
    else panicked

-- The loop that drains, from the end.
unfoldable pub cut : List Span → Text → Outcome Text
cut [] out = returned out
cut ((start, end) ∷ m) out = drain start end out >>= cut m

unfoldable pub strip_fallback_spans : (d : Dom) → d.Element → Text → List Text → Outcome Text
unfolding collect sort merge cut
strip_fallback_spans d content body for_ns =
    map_or (collect d for_ns (length body) (d.children content)) (returned []) (λ spans.
      if is_empty spans
      then returned body
      else cut (merge [] (sort spans)) body >>= λ out. returned (trim out))
