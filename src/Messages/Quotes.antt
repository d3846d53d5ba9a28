-- ===== src/Messages/Quotes.antt =====
-- `MessageItem::from_rows`: the quotes of a page of rows.
use monocles_chat_desktop.Base.{
  Bool, true, false, ◌&&◌, ◌||◌, ◌≡◌, refl, List, [], ◌∷◌, Option, none, some, Text, Map, any, map,
  All, is_empty, unwrap_or, map_or, text_eq, text_eq_refl, text_eq_iff, lookup, insert,
  lookup-insert, Option-cases, ◌⊎◌, inl, inr, arith,
}
use monocles_chat_desktop.Messages.Item.{MessageRow, MessageItem, Page}
use monocles_chat_desktop.Messages.Render.{from_row}

abbrev pub insert_id : Option Text → Text → Map Text → Map Text
insert_id none body by_marker = by_marker
insert_id (some id) body by_marker = insert id body by_marker

-- The loop that fills `by_marker`.
unfoldable pub index : List MessageRow → Map Text → Map Text
unfolding insert
index [] by_marker = by_marker
index (r ∷ rows) by_marker = index rows (
    map_or r.body by_marker
      (λ body. insert_id r.origin_id body (insert_id r.stanza_id body by_marker)))

module _ (p : Page) where
  unfoldable pub with_quote : Map Text → Bool → MessageRow → MessageItem
  unfolding lookup from_row
  with_quote by_marker auto_download r =
      let item = from_row p r auto_download in
      map_or r.reply_to item
        (λ rt. record item { reply_quote = unwrap_or (lookup rt by_marker) [] })

  unfoldable pub from_rows : List MessageRow → Bool → List MessageItem
  unfolding index with_quote
  from_rows rows auto_download = map (with_quote (index rows []) auto_download) rows

-- A row that goes by the marker and has this body.
unfoldable pub is_source : Text → Text → MessageRow → Bool
unfolding text_eq
is_source marker quote r =
    map_or r.body false (text_eq quote)
    && (map_or r.stanza_id false (text_eq marker) || map_or r.origin_id false (text_eq marker))

-- What a table finds is in the earlier table or has a source among the rows.
abbrev Finds : Text → Text → List MessageRow → Map Text → Type 0
Finds marker quote rows m =
    (any (is_source marker quote) rows ≡ true) ⊎ (lookup marker m ≡ some quote)

insert_id-lookup :
    (id : Option Text) (body : Text) (m : Map Text) (marker quote : Text)
    → lookup marker (insert_id id body m) ≡ some quote
    → (map_or id false (text_eq marker) && text_eq quote body ≡ true)
      ⊎ (lookup marker m ≡ some quote)
insert_id-lookup none body m marker quote h = inr h
insert_id-lookup (some id) body m marker quote h = ground (
  arith,
  lookup-insert id marker body m,
  text_eq_iff id marker,
  text_eq_iff marker id,
  text_eq_refl quote,
  text_eq_refl marker,
)

module _ (r : MessageRow) (m : Map Text) (marker quote : Text) where
  row_lookup :
      (body : Text)
      → r.body ≡ some body
      → lookup marker (insert_id r.origin_id body (insert_id r.stanza_id body m)) ≡ some quote
      → (is_source marker quote r ≡ true) ⊎ (lookup marker m ≡ some quote)
  unfolding is_source
  row_lookup body e h =
      elim (insert_id-lookup r.origin_id body (insert_id r.stanza_id body m) marker quote h) [
        | inl named ↦ inl (rw e (ground arith))
        | inr earlier ↦ elim (insert_id-lookup r.stanza_id body m marker quote earlier) [
          | inl named ↦ inl (rw e (ground arith))
          | inr found ↦ inr found
        ]
      ]

  step_lookup :
      lookup marker
          (map_or r.body m (λ body. insert_id r.origin_id body (insert_id r.stanza_id body m)))
        ≡ some quote
      → (is_source marker quote r ≡ true) ⊎ (lookup marker m ≡ some quote)
  step_lookup h = elim (Option-cases r.body) [
    | inl e ↦ inr (rw e at h)
    | inr (body, e) ↦ row_lookup body e (rw e at h)
  ]

index-Finds :
    (marker quote : Text) (rows : List MessageRow) (m : Map Text)
    → lookup marker (index rows m) ≡ some quote
    → Finds marker quote rows m
unfolding index
index-Finds marker quote [] m h = inr h
index-Finds marker quote (r ∷ rows) m h = elim (index-Finds marker quote rows _ h) [
  | inl later ↦ inl (ground arith)
  | inr earlier ↦ elim (step_lookup r m marker quote earlier) [
    | inl here ↦ inl (ground arith)
    | inr found ↦ inr found
  ]
]

-- The quote of an item is empty or has a source among the rows.
abbrev pub IsQuoted : List MessageRow → MessageItem → Type 0
IsQuoted rows item =
    is_empty item.reply_quote || any (is_source item.reply_to item.reply_quote) rows ≡ true

index-lookup :
    (rows : List MessageRow) (marker quote : Text)
    → lookup marker (index rows []) ≡ some quote
    → any (is_source marker quote) rows ≡ true
unfolding lookup
index-lookup rows marker quote h = elim (index-Finds marker quote rows [] h) [
  | inl found ↦ found
  | inr h' ↦ ground arith
]

resolved :
    (rows : List MessageRow) (marker : Text)
    → (let quote = unwrap_or (lookup marker (index rows [])) [] in
        is_empty quote || any (is_source marker quote) rows)
      ≡ true
resolved rows marker = elim (Option-cases (lookup marker (index rows []))) [
  | inl e ↦ rw e refl
  | inr (quote, e) ↦ rw e (ground (arith, index-lookup rows marker quote e))
]

module _ (p : Page) where
  with_quote-IsQuoted :
      (rows : List MessageRow) (auto_download : Bool) (r : MessageRow)
      → IsQuoted rows (with_quote p (index rows []) auto_download r)
  unfolding with_quote from_row
  with_quote-IsQuoted rows auto_download r = elim (Option-cases r.reply_to) [
    | inl e ↦ rw e refl
    | inr (rt, e) ↦ rw e (resolved rows rt)
  ]

  All-map-IsQuoted :
      (page rows : List MessageRow) (auto_download : Bool)
      → All (IsQuoted page) (map (with_quote p (index page []) auto_download) rows)
  All-map-IsQuoted page [] auto_download = tt
  All-map-IsQuoted page (r ∷ rows) auto_download =
      (with_quote-IsQuoted page auto_download r, All-map-IsQuoted page rows auto_download)

  -- Every item that is built from a page of rows has an empty quote, or its quote is the body of
  -- a row of that page whose stanza id or origin id is the marker that the item replies to.
  pub from_rows-IsQuoted :
      (rows : List MessageRow) (auto_download : Bool)
      → All (IsQuoted rows) (from_rows p rows auto_download)
  unfolding from_rows
  from_rows-IsQuoted rows auto_download = All-map-IsQuoted rows rows auto_download
