-- ===== src/Uri/Tests.antt =====
-- URIs that are scanned, and what `parse` makes of them.
use monocles_chat_desktop.Base.{
  ◌≡◌, refl, true, [], ◌∷◌, ◌++◌, Option, none, some, Text, codes, all, split_once, trim, returned,
  panicked, arith, contains, split, lower,
}
use monocles_chat_desktop.Uri.Bounds.{IsAccepted, parse-IsAccepted}
use monocles_chat_desktop.Uri.Decimal.{pos, parse_i64}
use monocles_chat_desktop.Uri.Encode.{percent_decode-encode_jid}
use monocles_chat_desktop.Uri.Fingerprint.{FingerprintKind, ParsedUri, normalize_fingerprint}
use monocles_chat_desktop.Uri.Panics.{parse-panicked}
use monocles_chat_desktop.Uri.Parse.{parse}
use monocles_chat_desktop.Uri.Percent.{encode_jid, percent_decode}
use monocles_chat_desktop.Uri.Safety.{parse-returned}
use monocles_chat_desktop.Uri.Utf8.{is_ascii}

abbrev key_hex : Text
key_hex = codes "99aabbccddeeff0099aabbccddeeff0099aabbccddeeff0099aabbccddeeff00"

abbrev code : Text
code = codes "xmpp:romeo@montague.lit?omemo-sid-7=" ++ key_hex

abbrev scanned : ParsedUri
scanned = record {
  jid = codes "romeo@montague.lit";
  fingerprints = record { kind = FingerprintKind.omemo; device_id = pos 7; hex = key_hex } ∷ [];
}

code-scanned : parse code ≡ returned (some scanned)
unfolding parse trim lower split_once percent_decode contains split parse_i64 normalize_fingerprint
code-scanned = refl

parse-IsAccepted_example : IsAccepted scanned
parse-IsAccepted_example = parse-IsAccepted code code-scanned

code_ascii : all is_ascii code ≡ true
code_ascii = refl

parse-returned_example : (r : Option ParsedUri) × (parse code ≡ returned r)
parse-returned_example = parse-returned code code_ascii

-- The key with its type byte, in groups of upper-case digits.
abbrev grouped : Text
grouped = codes "05 99AABBCCDDEEFF00 99AABBCCDDEEFF00 99AABBCCDDEEFF00 99AABBCCDDEEFF00"

grouped_normalized : normalize_fingerprint grouped ≡ some key_hex
unfolding normalize_fingerprint
grouped_normalized = refl

-- The JID part is `a%1é@b`.
abbrev split_character : Text
split_character = codes "a" ++ b'%' ∷ b'1' ∷ 0xe9 ∷ codes "@b"

no_query : split_once b'?' split_character ≡ none
unfolding split_once
no_query = refl

nothing_to_trim : trim (codes "xmpp:" ++ split_character) ≡ codes "xmpp:" ++ split_character
unfolding trim
nothing_to_trim = refl

parse-panicked_example : parse (codes "xmpp:" ++ split_character) ≡ panicked
parse-panicked_example =
    parse-panicked (codes "a") (codes "@b") b'1' 0xe9 refl (omega arith) (omega arith) (omega arith)
      no_query nothing_to_trim

abbrev spaced_jid : Text
spaced_jid = codes "a b%@x?;#"

spaced_jid_encoded : encode_jid spaced_jid ≡ codes "a%20b%25@x%3F%3B%23"
unfolding encode_jid
spaced_jid_encoded = refl

percent_decode-encode_jid_example : percent_decode (encode_jid spaced_jid) ≡ returned spaced_jid
percent_decode-encode_jid_example = percent_decode-encode_jid spaced_jid refl
