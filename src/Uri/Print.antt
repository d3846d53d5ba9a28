-- ===== src/Uri/Print.antt =====
-- `verification_uri`.
use monocles_chat_desktop.Base.{Bool, true, false, List, [], ◌∷◌, ◌++◌, Text, codes, if◌then◌else◌}
use monocles_chat_desktop.Uri.Decimal.{to_string}
use monocles_chat_desktop.Uri.Fingerprint.{
  FingerprintKind, omemo, omemo_pq, UriFingerprint, omemo_param, omemo_pq_param,
}
use monocles_chat_desktop.Uri.Percent.{encode_jid}

abbrev pub param : FingerprintKind → Text
param omemo = omemo_param
param omemo_pq = omemo_pq_param

-- One parameter, as the loop appends it behind its separator.
unfoldable pub entry : UriFingerprint → Text
entry fp = param fp.kind ++ (to_string fp.device_id ++ (b'=' ∷ fp.hex))

-- The loop; the flag is `i == 0`.
unfoldable pub entries : Bool → List UriFingerprint → Text
unfolding entry
entries first [] = []
entries first (fp ∷ fps) = (if first then b'?' else b';') ∷ (entry fp ++ entries false fps)

unfoldable pub verification_uri : Text → List UriFingerprint → Text
unfolding entries encode_jid to_string
verification_uri bare_jid fps = codes "xmpp:" ++ (encode_jid bare_jid ++ entries true fps)
