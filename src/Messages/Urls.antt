-- ===== src/Messages/Urls.antt =====
-- What a text is by its looks: a sticker, the URL of an image, of a voice message, of a file.
use monocles_chat_desktop.Base.{
  Bool, false, not, ◌&&◌, ◌||◌, List, [], ◌∷◌, ◌++◌, Option, none, some, Text, codes, if◌then◌else◌,
  any, text_eq, is_some, is_empty, or_else, trim, is_whitespace, starts_with, strip_prefix,
  rsplit_once, to_ascii_lowercase, lower, contains, ℕ, ◌==◌,
}

-- `rsplit(b).next()`: what stands behind the last `b`.
unfoldable pub after_last : ℕ → Text → Text
unfolding rsplit_once
after_last b s = elim (rsplit_once b s) [ some (_, y) ↦ y | none ↦ s ]

-- `split(['?', '#']).next()`.
unfoldable pub before_query : Text → Text
before_query [] = []
before_query (c ∷ cs) =
    let rest = before_query cs in if c == b'?' || c == b'#' then [] else c ∷ rest

abbrev pub file_segment : Text → Text
file_segment t = before_query (after_last b'/' t)

abbrev pub one_of : List Text → Text → Bool
one_of names s = any (λ n. text_eq n s) names

abbrev pub image_extensions : List Text
image_extensions =
    codes "png" ∷ codes "jpg" ∷ codes "jpeg" ∷ codes "gif" ∷ codes "webp" ∷ codes "bmp" ∷ []

abbrev pub audio_extensions : List Text
audio_extensions =
    codes "oga"
    ∷ codes "ogg"
    ∷ codes "opus"
    ∷ codes "m4a"
    ∷ codes "mp3"
    ∷ codes "wav"
    ∷ codes "aac"
    ∷ codes "flac"
    ∷ codes "mpeg"
    ∷ codes "amr"
    ∷ []

-- The three schemes that a shared file may have.
abbrev pub is_upload : Text → Bool
is_upload t =
    starts_with (codes "aesgcm://") t
    || starts_with (codes "https://") t
    || starts_with (codes "http://") t

unfoldable pub is_sticker_cid : Text → Bool
unfolding trim strip_prefix is_whitespace
is_sticker_cid body = let t = trim body in starts_with (codes "cid:") t && not (any is_whitespace t)

-- What `image_url` and `audio_url` share.
unfoldable pub url_with_extension : List Text → Text → Option Text
unfolding trim strip_prefix is_whitespace after_last before_query lower text_eq
url_with_extension extensions body =
    let t = trim body in
    let extension = after_last b'.' (to_ascii_lowercase (file_segment t)) in
    if any is_whitespace t
    then none
    else if not (is_upload t)
    then none
    else if one_of extensions extension
    then some t
    else none

unfoldable pub image_url : Text → Option Text
unfolding url_with_extension
image_url body = url_with_extension image_extensions body

unfoldable pub audio_url : Text → Option Text
unfolding url_with_extension
audio_url body = url_with_extension audio_extensions body

unfoldable pub media_url : Text → Option Text
unfolding image_url audio_url
media_url body = or_else (image_url body) (audio_url body)

unfoldable pub other_file_url : Text → Option Text
unfolding trim strip_prefix is_whitespace image_url audio_url
other_file_url s =
    let t = trim s in
    if any is_whitespace t || not (starts_with (codes "aesgcm://") t)
    then none
    else if is_some (image_url t) || is_some (audio_url t)
    then none
    else some t

unfoldable pub file_name_of : Text → Text
unfolding after_last before_query
file_name_of url = let name = file_segment url in if is_empty name then codes "file" else name

abbrev pub kind_label : Text → Text
kind_label ext =
    if one_of image_extensions ext
    then codes "Image"
    else if one_of
        (codes "mp4" ∷ codes "webm" ∷ codes "mov" ∷ codes "mkv" ∷ codes "avi" ∷ codes "m4v" ∷ [])
        ext
    then codes "Video"
    else if one_of audio_extensions ext
    then codes "Audio"
    else if text_eq ext (codes "pdf")
    then codes "PDF"
    else if one_of (codes "zip" ∷ codes "7z" ∷ codes "rar" ∷ codes "tar" ∷ codes "gz" ∷ []) ext
    then codes "Archive"
    else if one_of (codes "doc" ∷ codes "docx" ∷ codes "odt" ∷ codes "rtf" ∷ codes "txt" ∷ []) ext
    then codes "Document"
    else codes "File"

-- `to_uppercase` is that of the standard library.
unfoldable pub file_type_label : (Text → Text) → Text → Text
unfolding after_last before_query lower rsplit_once text_eq
file_type_label to_uppercase url = elim (rsplit_once b'.' (to_ascii_lowercase (file_segment url))) [
  | none ↦ codes "File"
  | some (_, e) ↦
      if is_empty e
      then codes "File"
      else kind_label e ++ (codes " (" ++ (to_uppercase e ++ codes ")"))
]

-- `ends_with(".xdc")`.
abbrev ends_with_xdc : Text → Bool
ends_with_xdc [] = false
ends_with_xdc (c ∷ cs) = text_eq (c ∷ cs) (codes ".xdc") || ends_with_xdc cs

-- The `thread` is that of the row.
unfoldable pub webxdc_url : Option Text → Text → Option Text
unfolding trim strip_prefix is_whitespace after_last before_query lower text_eq contains
webxdc_url thread body =
    let t = trim body in
    let name = to_ascii_lowercase (file_segment t) in
    if any is_whitespace t
    then none
    else if not (is_upload t)
    then none
    else if ends_with_xdc name
    then some t
    else if starts_with (codes "aesgcm://") t && is_some thread && not (contains b'.' name)
    then some t
    else none
