-- ===== src/Omemo/Bundle.antt =====
-- crates/mxc-omemo/src/bundle.rs: the bundle of a device and `from_xml`, over the events of the
-- XML reader, whose texts are trimmed.
pub mod Accepted
use monocles_chat_desktop.Base.{
  ℕ, Bool, true, false, not, ◌&&◌, ◌||◌, List, [], ◌∷◌, ◌++◌, Option, none, some, Text, codes,
  if◌then◌else◌, ◌==◌, find, is_empty, text_eq, trim, map_or, unwrap_or,
}
use monocles_chat_desktop.Omemo.Error.{OmemoError, Result, ok, err, guard, ok_or, ◌>>=◌, ◌>>◌}
use monocles_chat_desktop.Sce.Reader.{Attribute, XmlEvent}
use monocles_chat_desktop.Uri.Decimal.{magnitude}
use monocles_chat_desktop.Uri.Utf8.{Bytes}

pub record KemPreKey : Type 0 where
  pub id : ℕ
  pub key : Bytes
  pub sig : Bytes

pub record Bundle : Type 0 where
  pub spk_id : ℕ
  pub spk : Bytes
  pub spk_sig : Bytes
  pub ik : Bytes
  pub prekeys : List (ℕ × Bytes)
  pub kem_spk_id : ℕ
  pub kem_spk : Bytes
  pub kem_spk_sig : Bytes
  pub kem_prekeys : List KemPreKey
  pub pq_ik : Bytes
  pub pq_sig : Bytes

abbrev pub supports_pqxdh : Bundle → Bool
supports_pqxdh b = not (is_empty b.kem_spk)

abbrev pub has_pq_identity : Bundle → Bool
has_pq_identity b = not (is_empty b.pq_ik) && not (is_empty b.pq_sig)

abbrev pub ml_kem_1024_tag : ℕ
ml_kem_1024_tag = 0x0A

abbrev pub is_ml_kem_1024 : Bytes → Bool
is_ml_kem_1024 [] = false
is_ml_kem_1024 (b ∷ _) = b == ml_kem_1024_tag

-- What is not in the repository: base64, and the entities of a text.
pub record Reading : Type 0 where
  pub b64 : Text → Option Bytes
  pub unescape : Text → Option Text

-- `str::parse::<u32>`.
unfoldable pub parse_u32 : Text → Option ℕ
unfolding magnitude
parse_u32 [] = none
parse_u32 (c ∷ cs) = magnitude 4294967295 (if c == b'+' then cs else c ∷ cs)

unfoldable pub decode_b64 : Reading → Text → Result Bytes
unfolding trim
decode_b64 x s = ok_or (x.b64 (trim s)) OmemoError.base64

abbrev attr_raw : List Attribute → Text → Option Text
attr_raw ats key = map_or (find (λ a. text_eq a.key key) ats) none (λ a. some a.raw)

unfoldable pub attr_u32 : List Attribute → Text → Option ℕ
unfolding text_eq parse_u32
attr_u32 ats key = map_or (attr_raw ats key) none parse_u32

unfoldable pub attr_b64 : Reading → List Attribute → Text → Result (Option Bytes)
unfolding text_eq decode_b64
attr_b64 x ats key =
    map_or (attr_raw ats key) (ok none) (λ s. do raw ← decode_b64 x s; ok (some raw))

-- The variables of the loop: the bundle so far, and what the last start tag had.
pub record Loop : Type 0 where
  pub bundle : Bundle
  pub cur : Text
  pub cur_id : Option ℕ
  pub cur_sig : Option Bytes

-- What a text is in the last element that began.
unfoldable pub put : Loop → Bytes → Bundle
unfolding text_eq
put l raw =
    let b = l.bundle in
    let id = unwrap_or l.cur_id 0 in
    if text_eq l.cur (codes "spk")
    then record b { spk = raw; spk_id = id }
    else if text_eq l.cur (codes "spks")
    then record b { spk_sig = raw }
    else if text_eq l.cur (codes "ik")
    then record b { ik = raw }
    else if text_eq l.cur (codes "pk")
    then record b { prekeys = b.prekeys ++ ((id, raw) ∷ []) }
    else if text_eq l.cur (codes "kem-spk")
    then record b { kem_spk = raw; kem_spk_id = id }
    else if text_eq l.cur (codes "kem-spks")
    then record b { kem_spk_sig = raw }
    else if text_eq l.cur (codes "kem-pk") && is_ml_kem_1024 raw
    then (let one : KemPreKey = record { id = id; key = raw; sig = unwrap_or l.cur_sig [] } in
        record b { kem_prekeys = b.kem_prekeys ++ (one ∷ []) })
    else if text_eq l.cur (codes "pq-ik")
    then record b { pq_ik = raw }
    else if text_eq l.cur (codes "pq-sig")
    then record b { pq_sig = raw }
    else b

unfoldable pub step : Reading → Loop → XmlEvent → Result Loop
unfolding put attr_u32 attr_b64 decode_b64 trim
step x l (XmlEvent.start name ats) = do
  sig ← attr_b64 x ats (codes "sig")
  ok (record l { cur = name; cur_id = attr_u32 ats (codes "id"); cur_sig = sig })
step x l (XmlEvent.text t) = do
  txt ← ok_or (x.unescape t) OmemoError.bundle_parse
  raw ← decode_b64 x (trim txt)
  ok (record l { bundle = put l raw })
step x l XmlEvent.failed = err OmemoError.bundle_parse
step x l _ = ok l

unfoldable pub run : Reading → Loop → List XmlEvent → Result Bundle
unfolding step
run x l [] = ok l.bundle
run x l (e ∷ es) = step x l e >>= λ l'. run x l' es

abbrev pub initial : Loop
initial = record {
  bundle = record {
    spk_id = 0;
    spk = [];
    spk_sig = [];
    ik = [];
    prekeys = [];
    kem_spk_id = 0;
    kem_spk = [];
    kem_spk_sig = [];
    kem_prekeys = [];
    pq_ik = [];
    pq_sig = [];
  };
  cur = [];
  cur_id = none;
  cur_sig = none;
}

unfoldable pub from_xml : Reading → List XmlEvent → Result Bundle
unfolding run
from_xml x events = do
  b ← run x initial events
  guard (not (is_empty b.ik || is_empty b.spk)) OmemoError.bundle_parse
  guard (supports_pqxdh b) OmemoError.no_pqxdh
  guard (is_ml_kem_1024 b.kem_spk) OmemoError.bundle_parse
  guard (has_pq_identity b) OmemoError.no_pq_identity
  ok b
