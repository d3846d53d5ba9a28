-- ===== src/Messages/Item.antt =====
-- `MessageRow`, `MessageItem`, and the files that a row shares.
use monocles_chat_desktop.Base.{
  ℕ, Bool, ◌||◌, List, [], ◌∷◌, Option, none, some, Text, codes, if◌then◌else◌, is_some, is_empty,
  or_else, unwrap_or, map_or, trim, starts_with, strip_prefix, ltb, length, text_eq,
}
use monocles_chat_desktop.Messages.Urls.{image_url, audio_url, media_url, file_name_of, one_of}

-- The columns of a row that the page reads.
pub record MessageRow : Type 0 where
  pub id : ℕ
  pub stanza_id : Option Text
  pub origin_id : Option Text
  pub counterpart : Text
  pub direction : Text
  pub body : Option Text
  pub encryption : Text
  pub state : Text
  pub edited_of : Option Text
  pub retracted : Bool
  pub attachment : Option Text
  pub reply_to : Option Text
  pub timestamp : Text
  pub thread : Option Text

pub record MessageItem : Type 0 where
  pub id : ℕ
  pub body : Text
  pub outgoing : Bool
  pub timestamp : Text
  pub encrypted : Bool
  pub state : Text
  pub marker : Text
  pub reply_quote : Text
  pub reply_to : Text
  pub reactions : Text
  pub sender : Text
  pub image_path : Text
  pub sender_avatar : Text
  pub day : Text
  pub audio_path : Text
  pub edited : Bool
  pub retracted : Bool
  pub webxdc_url : Text
  pub thread : Text
  pub file_url : Text
  pub file_name : Text
  pub attachments : Text

pub record AttachmentFile : Type 0 where
  pub url : Text
  pub name : Text
  pub mime : Text

-- A tile for a shared file: the JSON object with these keys.
pub record Tile : Type 0 where
  pub url : Text
  pub name : Text
  pub kind : Text
  pub path : Text

-- What stands outside of the file: `serde_json`, where `print_tiles` is `to_string` of the array
-- of the tiles (empty where it fails); the disk, where `image_cache_path` and `sticker_path` hash
-- the URL (`session.rs`) or take the hash of a `cid:` (`bob.rs`) below the user's cache directory;
-- `chrono`, which reads a timestamp in one of two formats and prints its local day; and the
-- standard library's upper case.
pub record Page : Type 1 where
  pub Json : Type 0
  pub parse : Text → Option Json
  pub get : Text → Json → Option Json
  pub as_array : Json → Option (List Json)
  pub as_str : Json → Option Text
  pub print_tiles : List Tile → Text
  pub image_cache_path : Text → Text
  pub sticker_path : Text → Option Text
  pub is_file : Text → Bool
  pub rfc3339_day : Text → Option Text
  pub sql_day : Text → Option Text
  pub to_uppercase : Text → Text

unfoldable pub kind : AttachmentFile → Text
unfolding image_url audio_url strip_prefix
kind f =
    if starts_with (codes "image/") f.mime || is_some (image_url f.url)
    then codes "image"
    else if starts_with (codes "audio/") f.mime || is_some (audio_url f.url)
    then codes "audio"
    else codes "file"

module _ (p : Page) where
  open p use {Json, parse, get, as_array, as_str}

  -- `get(k).and_then(|v| v.as_str())`.
  abbrev pub get_str : Text → Json → Option Text
  get_str k v = elim (get k v) [ none ↦ none | some w ↦ as_str w ]

  abbrev pub parsed : Option Text → Option Json
  parsed none = none
  parsed (some json) = parse json

  unfoldable pub attachment_url : MessageRow → Option Text
  attachment_url m = elim (parsed m.attachment) [ none ↦ none | some v ↦ get_str (codes "url") v ]

  -- The `files` array, else the value itself.
  abbrev pub entries : Json → List Json
  entries v = elim (get (codes "files") v) [
    | none ↦ v ∷ []
    | some f ↦ elim (as_array f) [ some list ↦ list | none ↦ v ∷ [] ]
  ]

  abbrev pub entry_name : Text → Json → Text
  entry_name url e = elim (get_str (codes "name") e) [
    | none ↦ file_name_of url
    | some n ↦ if is_empty n then file_name_of url else n
  ]

  -- `filter_map`: an entry with no URL is left out.
  unfoldable pub files_of : List Json → List AttachmentFile
  unfolding trim file_name_of
  files_of [] = []
  files_of (e ∷ es) =
      let rest = files_of es in
      let url = trim (unwrap_or (get_str (codes "url") e) []) in
      if is_empty url
      then rest
      else record {
        url = url;
        name = entry_name url e;
        mime = unwrap_or (get_str (codes "mime") e) [];
      }
        ∷ rest

  unfoldable pub attachment_files : MessageRow → List AttachmentFile
  unfolding files_of
  attachment_files m = elim (parsed m.attachment) [ none ↦ [] | some v ↦ files_of (entries v) ]

  unfoldable pub row_media_url : MessageRow → Option Text
  row_media_url m =
      map_or (attachment_url m) (map_or m.body none media_url)
        (λ att. or_else (image_url att) (audio_url att))

  -- The URLs of the images and of the audio files.
  unfoldable pub media_urls : List AttachmentFile → List Text
  unfolding kind text_eq
  media_urls [] = []
  media_urls (f ∷ fs) =
      let rest = media_urls fs in
      if one_of (codes "image" ∷ codes "audio" ∷ []) (kind f) then f.url ∷ rest else rest

  unfoldable pub row_media_urls : MessageRow → List Text
  unfolding attachment_files media_urls row_media_url
  row_media_urls m =
      let files = attachment_files m in
      if ltb 1 (length files)
      then media_urls files
      else elim (row_media_url m) [ none ↦ [] | some url ↦ url ∷ [] ]
