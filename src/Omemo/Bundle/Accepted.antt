-- ===== src/Omemo/Bundle/Accepted.antt =====
-- A bundle that is read is complete and not downgraded.
use monocles_chat_desktop.Base.{
  ◌≡◌, refl, sym, ap, ◌∙◌, Bool, true, false, List, [], ◌∷◌, codes, all, all-append, is_empty,
  unwrap_or, trim, arith,
}
use monocles_chat_desktop.Omemo.Bundle.{
  KemPreKey, Bundle, has_pq_identity, is_ml_kem_1024, Reading, Loop, decode_b64, attr_b64, put,
  step, run, initial, from_xml,
}
use monocles_chat_desktop.Omemo.Error.{OmemoError, Result, ok, err, ok_or, >>=-eq-ok}
use monocles_chat_desktop.Sce.Reader.{
  XmlEvent, start, text, other, failed, empty, finish, general_ref,
}
use monocles_chat_desktop.Uri.Utf8.{Bytes}

-- Every one-time KEM pre-key is one of ML-KEM-1024.
abbrev pub only_ml_kem : List KemPreKey → Bool
only_ml_kem = all (λ k. is_ml_kem_1024 k.key)

put-only_ml_kem :
    (l : Loop) (raw : Bytes)
    → only_ml_kem l.bundle.kem_prekeys ≡ true
    → only_ml_kem (put l raw).kem_prekeys ≡ true
unfolding put
put-only_ml_kem l raw h =
    let one : KemPreKey = record {
      id = unwrap_or l.cur_id 0;
      key = raw;
      sig = unwrap_or l.cur_sig [];
    } in
    ground (arith, all-append (λ k. is_ml_kem_1024 k.key) l.bundle.kem_prekeys (one ∷ []) h)

abbrev only_of : Result Loop → Bool
only_of (ok l) = only_ml_kem l.bundle.kem_prekeys
only_of (err e) = true

step-only_ml_kem :
    (x : Reading) (l : Loop) (e : XmlEvent) {l' : Loop}
    → only_ml_kem l.bundle.kem_prekeys ≡ true
    → step x l e ≡ ok l'
    → only_ml_kem l'.bundle.kem_prekeys ≡ true
unfolding step
step-only_ml_kem x l (start name ats) h e =
    let (sig, _, same) = >>=-eq-ok (attr_b64 x ats (codes "sig")) _ e in ap only_of (sym same) ∙ h
step-only_ml_kem x l (text t) h e =
    let (txt, _, rest) = >>=-eq-ok (ok_or (x.unescape t) OmemoError.bundle_parse) _ e in
    let (raw, _, same) = >>=-eq-ok (decode_b64 x (trim txt)) _ rest in
    ap only_of (sym same) ∙ put-only_ml_kem l raw h
step-only_ml_kem x l failed h e = cc
step-only_ml_kem x l (empty name ats) h e = ground arith
step-only_ml_kem x l (finish name) h e = ground arith
step-only_ml_kem x l (general_ref name) h e = ground arith
step-only_ml_kem x l other h e = ground arith

run-only_ml_kem :
    (x : Reading) (l : Loop) (es : List XmlEvent) {b : Bundle}
    → only_ml_kem l.bundle.kem_prekeys ≡ true
    → run x l es ≡ ok b
    → only_ml_kem b.kem_prekeys ≡ true
unfolding run
run-only_ml_kem x l [] h e = ground arith
run-only_ml_kem x l (v ∷ es) h e =
    let (l', now, later) = >>=-eq-ok (step x l v) (λ l'. run x l' es) e in
    run-only_ml_kem x l' es (step-only_ml_kem x l v h now) later

-- A bundle that is read has the classical keys, a last-resort KEM key and the post-quantum
-- identity, and each of its KEM keys is one of ML-KEM-1024.
pub from_xml-accepted :
    (x : Reading) (events : List XmlEvent) {b : Bundle}
    → from_xml x events ≡ ok b
    → (is_empty b.ik ≡ false)
      × (is_empty b.spk ≡ false)
      × (is_ml_kem_1024 b.kem_spk ≡ true)
      × (only_ml_kem b.kem_prekeys ≡ true)
      × (has_pq_identity b ≡ true)
unfolding from_xml
from_xml-accepted x events {b} h =
    let (read, found, tests) = >>=-eq-ok (run x initial events) _ h in
    let only = run-only_ml_kem x initial events refl found in ground arith
