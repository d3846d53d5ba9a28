-- ===== src/Messages/Tests.antt =====
-- Rows that are shown.
use monocles_chat_desktop.Base.{
  ◌≡◌, refl, Bool, true, false, [], ◌∷◌, ◌++◌, Option, none, some, Text, codes, All, map, text_eq,
}
use monocles_chat_desktop.Messages.Item.{MessageRow, Page}
use monocles_chat_desktop.Messages.Quotes.{IsQuoted, from_rows, from_rows-IsQuoted}
use monocles_chat_desktop.Messages.Render.{from_row}
use monocles_chat_desktop.Messages.Shown.{from_row-is_consistent, is_consistent}
use monocles_chat_desktop.Messages.Urls.{image_url}

-- The JSON of an attachment is its URL, and every file with a short name is cached.
abbrev page : Page
page = record {
  Json = Text;
  parse = λ s. some s;
  get = λ k s. if_url (text_eq k (codes "url")) s;
  as_array = λ s. none;
  as_str = λ s. some s;
  print_tiles = λ ts. map (λ t. b'*') ts;
  image_cache_path = λ url. codes "/cache/" ++ url;
  sticker_path = λ cid. some cid;
  is_file = λ path. true;
  rfc3339_day = λ ts. none;
  sql_day = λ ts. none;
  to_uppercase = λ s. s;
}
  where
    if_url : Bool → Text → Option Text
    if_url true s = some s
    if_url false s = none

abbrev picture : MessageRow
picture = record {
  id = 1;
  stanza_id = some (codes "m1");
  origin_id = none;
  counterpart = codes "room@muc.org/alice";
  direction = codes "in";
  body = some (codes "https://x.org/a/cat.PNG?size=1");
  encryption = codes "omemo2";
  state = codes "received";
  edited_of = none;
  retracted = false;
  attachment = none;
  reply_to = none;
  timestamp = codes "2026-01-01 10:00:00";
  thread = none;
}

abbrev answer : MessageRow
answer = record picture {
  id = 2;
  stanza_id = some (codes "m2");
  body = some (codes "nice");
  reply_to = some (codes "m1");
}

abbrev withdrawn : MessageRow
withdrawn = record picture { retracted = true }

picture_url :
    image_url (codes "https://x.org/a/cat.PNG?size=1")
    ≡ some (codes "https://x.org/a/cat.PNG?size=1")
unfolding image_url
picture_url = refl

from_row-is_consistent_example :
    is_consistent page
      (from_row page picture true).image_path
      (from_row page picture true).audio_path
      (from_row page picture true).file_url
    ≡ true
from_row-is_consistent_example = from_row-is_consistent page picture true

from_rows-IsQuoted_example :
    All (IsQuoted (picture ∷ answer ∷ [])) (from_rows page (picture ∷ answer ∷ []) true)
from_rows-IsQuoted_example = from_rows-IsQuoted page (picture ∷ answer ∷ []) true
