-- ===== src/Omemo/Receiving/Ours.antt =====
-- Which wrapped keys are for our device: what the tests of `select_key_candidates` come to.
use monocles_chat_desktop.Base.{
  eq_ignore_case, clash, Bool-cases, trim, text_eq_iff, ◌↔◌, ◌≢◌, ◌≡◌, ◌⊎◌, inl, inr, refl, ap,
  Bool, true, false, ◌&&◌, List, [], ◌∷◌, Option, none, some, Text, codes, AnyOf, if◌then◌else◌,
  map_or, text_eq, arith,
}
use monocles_chat_desktop.Calls.State.{bare}
use monocles_chat_desktop.Dom.{Dom, attr}
use monocles_chat_desktop.Omemo.Receiving.{Candidate, keys_block_is_ours, candidate}
use monocles_chat_desktop.Uri.Utf8.{Bytes}

-- An attribute that is there and passes a test; one that is a text.
passes_iff :
    (p : Text → Bool) (o : Option Text)
    → (map_or o false p ≡ true) ↔ ((x : Text) × (o ≡ some x) × (p x ≡ true))
passes_iff p none = (λ h. cc, λ h. cc)
passes_iff p (some y) = (λ h. (y, refl, h), λ h. ground (arith, h.1, h.2))

is_text_iff :
    (t : Text) (o : Option Text) → (map_or o false (λ v. text_eq v t) ≡ true) ↔ (o ≡ some t)
is_text_iff t none = (λ h. cc, λ h. cc)
is_text_iff t (some v) =
    (λ h. ap some ((text_eq_iff v t).0 h), λ h. (text_eq_iff v t).1 (some_injective h))
  where
    some_injective : {A : Type 0} {x y : A} → some x ≡ some y → x ≡ y
    some_injective e = cc

-- A flag that is set just if the attribute is the text.
flag_iff :
    (t : Text) (o : Option Text) (flag : Bool)
    → (map_or o false (λ v. text_eq v t) ≡ flag)
      ↔ (((flag ≡ true) × (o ≡ some t)) ⊎ ((flag ≡ false) × (o ≢ some t)))
flag_iff t o true = (
  λ h. inl (refl, (is_text_iff t o).0 h),
  λ h. elim h [ inl (_, e) ↦ (is_text_iff t o).1 e | inr (e, _) ↦ cc ],
)
flag_iff t o false = (
  λ h. inr (refl, λ e. clash h ((is_text_iff t o).1 e)),
  λ h. elim h [
    | inl (e, _) ↦ cc
    | inr (_, differs) ↦ elim (Bool-cases (map_or o false (λ v. text_eq v t))) [
      | inl e ↦ absurd (differs ((is_text_iff t o).0 e))
      | inr e ↦ e
    ]
  ],
)

and_iff : (a b : Bool) → (a && b ≡ true) ↔ ((a ≡ true) × (b ≡ true))
and_iff a b = ground arith

made_iff :
    (test : Bool) (o : Option Bytes) (flag : Bool) (c : Candidate)
    → ((if test then map_or o none (λ w. some (w, flag)) else none) ≡ some c)
      ↔ ((test ≡ true) × (o ≡ some c.0) × (flag ≡ c.1))
made_iff false o flag c = (λ h. cc, λ h. cc)
made_iff true none flag c = (λ h. cc, λ h. cc)
made_iff true (some w) flag c = (
  λ h. (refl, ap (λ x. map_or x none (λ v. some v.0)) h, ap (λ x. map_or x flag (λ v. v.1)) h),
  λ h. let same = ap (λ x. map_or x w (λ v. v)) h.1 in (λ i. some (same i, h.2 i)),
)

AnyOf-iff :
    {A : Type 0} (P Q : A → Type 0) (xs : List A) → ((a : A) → P a ↔ Q a) → AnyOf P xs ↔ AnyOf Q xs
AnyOf-iff P Q [] h = (λ m. m, λ m. m)
AnyOf-iff P Q (x ∷ xs) h =
    let (there, back) = AnyOf-iff P Q xs h in
    (
      λ m. elim m [ inl p ↦ inl ((h x).0 p) | inr m' ↦ inr (there m') ],
      λ m. elim m [ inl q ↦ inl ((h x).1 q) | inr m' ↦ inr (back m') ],
    )

module _ (d : Dom) (decode : Text → Option Bytes) where
  open d use {Element, name, children, text}

  -- The block of keys bears our JID, in whatever case and with whatever resource.
  abbrev pub IsBlockFor : Text → Element → Type 0
  IsBlockFor our_bare b =
      (name b ≡ codes "keys")
      × ((jid : Text) × (attr d (codes "jid") b ≡ some jid)
          × (eq_ignore_case (bare jid) our_bare ≡ true))

  -- The key is for our device: its text is the wrapped key in base64, and the flag that of its
  -- attribute.
  abbrev pub IsKeyFor : Text → Element → Candidate → Type 0
  IsKeyFor our_rid k (wrapped, kex) =
      (name k ≡ codes "key")
      × (attr d (codes "rid") k ≡ some our_rid)
      × (decode (trim (text k)) ≡ some wrapped)
      × (((kex ≡ true) × (attr d (codes "kex") k ≡ some (codes "true")))
          ⊎ ((kex ≡ false) × (attr d (codes "kex") k ≢ some (codes "true"))))

  -- A wrapped key that stands in a block of our JID under our device's id.
  abbrev pub IsOurs : Text → Text → List Element → Candidate → Type 0
  IsOurs our_bare our_rid blocks c =
      AnyOf (λ b. IsBlockFor our_bare b × AnyOf (λ k. IsKeyFor our_rid k c) (children b)) blocks

  abbrev pub ours : Text → Element → Bool
  ours our_bare b =
      text_eq (name b) (codes "keys") && keys_block_is_ours (attr d (codes "jid") b) our_bare

  ours_iff : (our_bare : Text) (b : Element) → (ours our_bare b ≡ true) ↔ IsBlockFor our_bare b
  unfolding keys_block_is_ours
  ours_iff our_bare b =
      let tests =
        and_iff (text_eq (name b) (codes "keys"))
          (keys_block_is_ours (attr d (codes "jid") b) our_bare) in
      let named = text_eq_iff (name b) (codes "keys") in
      let jid = passes_iff (λ j. eq_ignore_case (bare j) our_bare) (attr d (codes "jid") b) in
      (λ h. (named.0 (tests.0 h).0, jid.0 (tests.0 h).1), λ h. tests.1 (named.1 h.0, jid.1 h.1))

  candidate_iff :
      (our_rid : Text) (k : Element) (c : Candidate)
      → (candidate d decode our_rid k ≡ some c) ↔ IsKeyFor our_rid k c
  unfolding candidate
  candidate_iff our_rid k (wrapped, kex) =
      let rid_test = map_or (attr d (codes "rid") k) false (λ rid. text_eq rid our_rid) in
      let kex_test = map_or (attr d (codes "kex") k) false (λ v. text_eq v (codes "true")) in
      let made =
        made_iff (text_eq (name k) (codes "key") && rid_test) (decode (trim (text k))) kex_test
          (wrapped, kex) in
      let tests = and_iff (text_eq (name k) (codes "key")) rid_test in
      let named = text_eq_iff (name k) (codes "key") in
      let rid = is_text_iff our_rid (attr d (codes "rid") k) in
      let flag = flag_iff (codes "true") (attr d (codes "kex") k) kex in
      (
        λ h.
            let (t, w, f) = made.0 h in let (n, r) = tests.0 t in (named.0 n, rid.0 r, w, flag.0 f),
        λ h. made.1 (tests.1 (named.1 h.0, rid.1 h.1), h.2, flag.1 h.3),
      )

  -- As the code says it.
  abbrev pub IsChosen : Text → Text → List Element → Candidate → Type 0
  IsChosen our_bare our_rid blocks c =
      AnyOf
        (λ b.
          (ours our_bare b ≡ true)
          × AnyOf (λ k. candidate d decode our_rid k ≡ some c) (children b))
        blocks

  pub IsChosen-iff :
      (our_bare our_rid : Text) (bs : List Element) (c : Candidate)
      → IsChosen our_bare our_rid bs c ↔ IsOurs our_bare our_rid bs c
  IsChosen-iff our_bare our_rid bs c = AnyOf-iff _ _ bs λ b.
      let inner = AnyOf-iff _ _ (children b) (λ k. candidate_iff our_rid k c) in
      (
        (λ h. ((ours_iff our_bare b).0 h.0, inner.0 h.1)),
        (λ h. ((ours_iff our_bare b).1 h.0, inner.1 h.1)),
      )
