-- ===== src/Messages/Shown.antt =====
-- What a row may show.
use monocles_chat_desktop.Base.{
  Bool, true, false, not, ◌&&◌, ◌||◌, ◌≡◌, refl, [], Option, none, some, Text, if◌then◌else◌,
  is_some, is_empty, or_else, unwrap_or, map_or, arith, trim, codes,
}
use monocles_chat_desktop.Messages.Urls.{
  image_url, audio_url, media_url, other_file_url, webxdc_url, is_sticker_cid, file_name_of,
  file_type_label,
}
use monocles_chat_desktop.Messages.Item.{MessageRow, Page, attachment_url, row_media_url}
use monocles_chat_desktop.Messages.Render.{
  Slots, text_slot, image_slot, audio_slot, file_slot, raw, media_src, caption, tiles,
  sticker_slots, download_slots, public_slots, card_slots, audio_slots, media_slots, slots,
  from_row,
}

-- At most one of the three is there.
abbrev at_most_one : Bool → Bool → Bool → Bool
at_most_one a b c = not (a && b || a && c || b && c)

and_right : (a b : Bool) → a && b ≡ true → b ≡ true
and_right a b h = ground arith

media_url-unwrap_or :
    (attached body : Option Text)
    → media_url (unwrap_or attached (unwrap_or body []))
      ≡ map_or attached
          (map_or body none media_url)
          (λ att. or_else (image_url att) (audio_url att))
unfolding media_url
media_url-unwrap_or none none = refl
media_url-unwrap_or none (some b) = refl
media_url-unwrap_or (some att) body = refl

module _ (p : Page) where
  open p use {image_cache_path, sticker_path, is_file}

  -- A path that is shown is that of a file on the disk, and the content has one place.
  unfoldable pub is_consistent : Text → Text → Text → Bool
  is_consistent image audio file =
      (is_empty image || is_file image)
      && (is_empty audio || is_file audio)
      && at_most_one (not (is_empty image)) (not (is_empty audio)) (not (is_empty file))

  abbrev IsConsistent : Slots → Type 0
  IsConsistent s = is_consistent s.image_path s.audio_path s.file_url ≡ true

  IsConsistent-text_slot : (b : Text) → IsConsistent (text_slot b)
  unfolding is_consistent
  IsConsistent-text_slot b = refl

  IsConsistent-image_slot : (b path : Text) → is_file path ≡ true → IsConsistent (image_slot b path)
  unfolding is_consistent
  IsConsistent-image_slot b path h = ground arith

  IsConsistent-audio_slot : (b path : Text) → is_file path ≡ true → IsConsistent (audio_slot b path)
  unfolding is_consistent
  IsConsistent-audio_slot b path h = ground arith

  IsConsistent-file_slot : (b url name : Text) → IsConsistent (file_slot b url name)
  unfolding is_consistent
  IsConsistent-file_slot b url name = ground arith

  -- A test of the disk guards what is shown.
  IsConsistent-if :
      (b : Bool) (s t : Slots)
      → (b ≡ true → IsConsistent s)
      → IsConsistent t
      → IsConsistent (if b then s else t)
  IsConsistent-if true s t hs ht = hs refl
  IsConsistent-if false s t hs ht = ht

  IsConsistent-map_or {ℓ} :
      {A : Type ℓ} (o : Option A) (s : Slots) (f : A → Slots)
      → IsConsistent s
      → ((a : A) → IsConsistent (f a))
      → IsConsistent (map_or o s f)
  IsConsistent-map_or none s f hs hf = hs
  IsConsistent-map_or (some a) s f hs hf = hf a

  sticker_slots-IsConsistent : (r : Text) → IsConsistent (sticker_slots p r)
  unfolding sticker_slots
  sticker_slots-IsConsistent r =
      IsConsistent-map_or (sticker_path (trim r)) _ _ (IsConsistent-text_slot (codes "🙂 Sticker"))
        (λ path.
          IsConsistent-if (is_file path) _ _ (IsConsistent-image_slot [] path)
            (IsConsistent-text_slot (codes "🙂 Sticker")))

  download_slots-IsConsistent : (text url : Text) → IsConsistent (download_slots p text url)
  unfolding download_slots
  download_slots-IsConsistent text url =
      IsConsistent-if (is_some (image_url url) && is_file (image_cache_path url)) _ _
        (λ h. IsConsistent-image_slot text (image_cache_path url) (and_right _ _ h))
        (IsConsistent-if (is_some (audio_url url) && is_file (image_cache_path url)) _ _
          (λ h. IsConsistent-audio_slot text (image_cache_path url) (and_right _ _ h))
          (IsConsistent-file_slot text url (file_type_label p.to_uppercase url)))

  public_slots-IsConsistent : (m : MessageRow) → IsConsistent (public_slots p m)
  unfolding public_slots
  public_slots-IsConsistent m =
      IsConsistent-map_or
        (or_else (attachment_url p m)
          (or_else (image_url (raw m)) (or_else (audio_url (raw m)) (other_file_url (raw m)))))
        _ _ (IsConsistent-text_slot (raw m)) (download_slots-IsConsistent (caption p m))

  card_slots-IsConsistent : (m : MessageRow) → IsConsistent (card_slots p m)
  unfolding card_slots
  card_slots-IsConsistent m =
      IsConsistent-map_or (attachment_url p m) _ _
        (IsConsistent-map_or (other_file_url (raw m)) _ _ (IsConsistent-text_slot (raw m))
          (λ url. IsConsistent-file_slot [] url (file_name_of url)))
        (λ url. IsConsistent-file_slot (caption p m) url (file_name_of url))

  audio_slots-IsConsistent : (m : MessageRow) → IsConsistent (audio_slots p m)
  unfolding audio_slots is_consistent
  audio_slots-IsConsistent m =
      IsConsistent-map_or (audio_url (media_src p m)) _ _ (card_slots-IsConsistent m) (λ url.
        IsConsistent-if (is_file (image_cache_path url)) _ _
          (IsConsistent-audio_slot (caption p m) (image_cache_path url)) refl)

  media_slots-IsConsistent : (m : MessageRow) → IsConsistent (media_slots p m)
  unfolding media_slots is_consistent
  media_slots-IsConsistent m =
      IsConsistent-map_or (image_url (media_src p m)) _ _ (audio_slots-IsConsistent m) (λ url.
        IsConsistent-if (is_file (image_cache_path url)) _ _
          (IsConsistent-image_slot (caption p m) (image_cache_path url)) refl)

  slots-IsConsistent :
      (m : MessageRow) (auto_download : Bool) → IsConsistent (slots p m auto_download)
  unfolding slots is_consistent
  slots-IsConsistent m auto_download =
      IsConsistent-if m.retracted _ _ (λ _. refl)
        (IsConsistent-if (not (is_empty (tiles p m))) _ _ (λ _. refl)
          (IsConsistent-if (is_some (webxdc_url m.thread (raw m))) _ _ (λ _. refl)
            (IsConsistent-if (is_sticker_cid (raw m)) _ _ (λ _. sticker_slots-IsConsistent (raw m))
              (IsConsistent-if (not auto_download) _ _ (λ _. public_slots-IsConsistent m)
                (media_slots-IsConsistent m)))))

  -- Of every row, in every kind of chat: an image path or an audio path that is shown is that of
  -- a file on the disk, and at most one of the image, the audio file and the file card is there.
  pub from_row-is_consistent :
      (m : MessageRow) (auto_download : Bool)
      → (let item = from_row p m auto_download in
          is_consistent item.image_path item.audio_path item.file_url)
        ≡ true
  unfolding from_row
  from_row-is_consistent m auto_download = slots-IsConsistent m auto_download

  -- A row that is retracted is shown in the same way whatever its body and its attachment are.
  pub from_row-retracted :
      (m : MessageRow) (auto_download : Bool) (body attachment : Option Text)
      → m.retracted ≡ true
      → from_row p (record m { body = body; attachment = attachment }) auto_download
        ≡ from_row p m auto_download
  unfolding from_row slots
  from_row-retracted m auto_download body attachment h = rw h refl

  -- The URL by which a row is shown as an image or as audio is the one that is fetched.
  pub media_url-media_src : (m : MessageRow) → media_url (media_src p m) ≡ row_media_url p m
  unfolding media_src row_media_url
  media_url-media_src m = media_url-unwrap_or (attachment_url p m) m.body
