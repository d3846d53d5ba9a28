-- ===== src/Messages/Render.antt =====
-- `MessageItem::from_row`: where the content of a row is shown.
use monocles_chat_desktop.Base.{
  Bool, not, ◌&&◌, [], none, some, Text, codes, map, if◌then◌else◌, is_some, is_empty, or_else,
  unwrap_or, map_or, trim, ltb, length, text_eq, rsplit_once, take,
}
use monocles_chat_desktop.Messages.Urls.{
  image_url, audio_url, other_file_url, file_name_of, file_type_label, is_sticker_cid, webxdc_url,
}
use monocles_chat_desktop.Messages.Item.{
  MessageRow, MessageItem, AttachmentFile, Tile, Page, kind, attachment_url, attachment_files,
}

-- The variables that the branches of the function set.
pub record Slots : Type 0 where
  pub body : Text
  pub image_path : Text
  pub audio_path : Text
  pub file_url : Text
  pub file_name : Text

abbrev pub text_slot : Text → Slots
text_slot b = record { body = b; image_path = []; audio_path = []; file_url = []; file_name = [] }

abbrev pub image_slot : Text → Text → Slots
image_slot b path = record (text_slot b) { image_path = path }

abbrev pub audio_slot : Text → Text → Slots
audio_slot b path = record (text_slot b) { audio_path = path }

abbrev pub file_slot : Text → Text → Text → Slots
file_slot b url name = record (text_slot b) { file_url = url; file_name = name }

-- `m.body.clone().unwrap_or_default()`.
abbrev pub raw : MessageRow → Text
raw m = unwrap_or m.body []

abbrev pub placeholder : Text → Text → Slots
placeholder caption label = text_slot (if is_empty caption then label else caption)

module _ (p : Page) where
  open p use {print_tiles, image_cache_path, sticker_path, is_file}

  -- `att_url.unwrap_or(raw)`.
  unfoldable pub media_src : MessageRow → Text
  media_src m = unwrap_or (attachment_url p m) (raw m)

  -- `caption`.
  unfoldable pub caption : MessageRow → Text
  caption m = if is_some (attachment_url p m) then raw m else []

  abbrev pub tile : AttachmentFile → Tile
  tile f =
      let cached = image_cache_path f.url in
      record {
        url = f.url;
        name = f.name;
        kind = kind f;
        path = if is_file cached then cached else [];
      }

  -- `attachments`, for a row that is not retracted.
  unfoldable pub tiles : MessageRow → Text
  tiles m =
      let files = attachment_files p m in
      if ltb 1 (length files) then print_tiles (map tile files) else []

  -- A sticker.
  unfoldable pub sticker_slots : Text → Slots
  sticker_slots r =
      map_or (sticker_path (trim r)) (text_slot (codes "🙂 Sticker"))
        (λ path. if is_file path then image_slot [] path else text_slot (codes "🙂 Sticker"))

  -- A public group: nothing is fetched, only what the user downloaded is shown.
  unfoldable pub download_slots : Text → Text → Slots
  download_slots cap url =
      let cached = image_cache_path url in
      if is_some (image_url url) && is_file cached
      then image_slot cap cached
      else if is_some (audio_url url) && is_file cached
      then audio_slot cap cached
      else file_slot cap url (file_type_label p.to_uppercase url)

  unfoldable pub public_slots : MessageRow → Slots
  public_slots m =
      map_or
        (or_else (attachment_url p m)
          (or_else (image_url (raw m)) (or_else (audio_url (raw m)) (other_file_url (raw m)))))
        (text_slot (raw m)) (download_slots (caption m))

  -- A file that is neither an image nor audio, or plain text.
  unfoldable pub card_slots : MessageRow → Slots
  card_slots m =
      map_or (attachment_url p m)
        (map_or (other_file_url (raw m)) (text_slot (raw m))
          (λ url. file_slot [] url (file_name_of url)))
        (λ url. file_slot (caption m) url (file_name_of url))

  unfoldable pub audio_slots : MessageRow → Slots
  audio_slots m = map_or (audio_url (media_src m)) (card_slots m) (λ url.
      let cached = image_cache_path url in
      if is_file cached
      then audio_slot (caption m) cached
      else placeholder (caption m) (codes "🎤 Voice message"))

  -- Media that are fetched on their own.
  unfoldable pub media_slots : MessageRow → Slots
  media_slots m = map_or (image_url (media_src m)) (audio_slots m) (λ url.
      let cached = image_cache_path url in
      if is_file cached
      then image_slot (caption m) cached
      else placeholder (caption m) (codes "🖼 Loading image…"))

  unfoldable pub slots : MessageRow → Bool → Slots
  slots m auto_download =
      if m.retracted
      then text_slot (codes "(message retracted)")
      else if not (is_empty (tiles m))
      then text_slot (raw m)
      else if is_some (webxdc_url m.thread (raw m))
      then text_slot []
      else if is_sticker_cid (raw m)
      then sticker_slots (raw m)
      else if not auto_download
      then public_slots m
      else media_slots m

  unfoldable pub local_day : Text → Text
  local_day ts = elim (p.rfc3339_day ts) [
    | some day ↦ day
    | none ↦ elim (p.sql_day ts) [ some day ↦ day | none ↦ take 10 ts ]
  ]

  unfoldable pub from_row : MessageRow → Bool → MessageItem
  from_row m auto_download =
      let shown = slots m auto_download in
      record {
        id = m.id;
        body = shown.body;
        outgoing = text_eq m.direction (codes "out");
        timestamp = m.timestamp;
        encrypted = text_eq m.encryption (codes "omemo2");
        state = m.state;
        marker = unwrap_or (or_else m.origin_id m.stanza_id) [];
        reply_quote = [];
        reply_to = unwrap_or m.reply_to [];
        reactions = [];
        sender = elim (rsplit_once b'/' m.counterpart) [ some (_, nick) ↦ nick | none ↦ [] ];
        image_path = shown.image_path;
        sender_avatar = [];
        day = local_day m.timestamp;
        audio_path = shown.audio_path;
        edited = is_some m.edited_of;
        retracted = m.retracted;
        webxdc_url = if m.retracted then [] else unwrap_or (webxdc_url m.thread (raw m)) [];
        thread = unwrap_or m.thread [];
        file_url = shown.file_url;
        file_name = shown.file_name;
        attachments = if m.retracted then [] else tiles m;
      }
