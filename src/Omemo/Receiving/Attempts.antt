-- ===== src/Omemo/Receiving/Attempts.antt =====
-- Which wrapped keys are selected, and with which of them a message opens.
use monocles_chat_desktop.Base.{
  Bool-cases, All-map, ℕ, zero, suc, ◌≤◌, ◌≡◌, ◌⊎◌, inl, inr, refl, sym, ap, ◌∙◌, Bool, true, false,
  List, [], ◌∷◌, Option, none, some, Text, ◌++◌, AnyOf, All-later, All-first, if◌then◌else◌, ltb,
  All, All-append, length, take, map_or, arith,
}
use monocles_chat_desktop.Dom.{Dom}
use monocles_chat_desktop.Omemo.Database.{Database}
use monocles_chat_desktop.Omemo.Error.{OmemoError, Result, ok, err}
use monocles_chat_desktop.Omemo.Receiving.{
  Candidate, candidate, candidates_of, all_candidates, select_key_candidates, Attempted, success,
  failure, is_aead, settles, last_error, attempt,
}
use monocles_chat_desktop.Omemo.Receiving.Ours.{IsOurs, ours, IsChosen, IsChosen-iff}
use monocles_chat_desktop.Uri.Decimal.{show_nat}
use monocles_chat_desktop.Uri.Utf8.{Bytes}

All-take {ℓ} : {A : Type ℓ} (P : A → Type 0) (n : ℕ) (xs : List A) → All P xs → All P (take n xs)
All-take P zero xs h = tt
All-take P (suc n) [] h = tt
All-take P (suc n) (x ∷ xs) (h, hs) = (h, All-take P n xs hs)

All-pair :
    {A : Type 0} (P : A → Type 0) (Q : Type 0) (xs : List A) → Q → All P xs → All (λ x. Q × P x) xs
All-pair P Q [] q h = tt
All-pair P Q (x ∷ xs) q (h, hs) = ((q, h), All-pair P Q xs q hs)

length-take_le {ℓ} : {A : Type ℓ} (n : ℕ) (xs : List A) → length (take n xs) ≤ n
length-take_le zero xs = omega arith
length-take_le (suc n) [] = omega arith
length-take_le (suc n) (x ∷ xs) = omega (arith, length-take_le n xs)

length-take_full {ℓ} : {A : Type ℓ} (n : ℕ) (xs : List A) → n ≤ length xs → length (take n xs) ≡ n
length-take_full zero xs h = refl
length-take_full (suc n) [] h = absurd (omega (arith, h))
length-take_full (suc n) (x ∷ xs) h = ap suc (length-take_full n xs (omega (arith, h)))

abbrev pub env_of : Attempted → Bytes
env_of (success env c) = env
env_of (failure e) = []

abbrev cand_of : Candidate → Attempted → Candidate
cand_of c (success env c') = c'
cand_of c (failure e) = c

settles-success :
    (c c' : Candidate) (r : Result Bytes) (rest : Attempted × Database) (db : Database)
    {env : Bytes}
    → (map_or (settles c r) rest (λ a. (a, db))).0 ≡ success env c'
    → ((r ≡ ok env) × (c ≡ c')) ⊎ (rest.0 ≡ success env c')
settles-success c c' (ok env') rest db h = inl (ap (λ a. ok (env_of a)) h, ap (cand_of c) h)
settles-success c c' (err e) rest db {env} h = tested (is_aead e) h
  where
    tested :
        (b : Bool)
        → (map_or (if b then some (failure e) else none) rest (λ a. (a, db))).0 ≡ success env c'
        → ((err e ≡ ok env) × (c ≡ c')) ⊎ (rest.0 ≡ success env c')
    tested true h' = cc
    tested false h' = inr h'

-- A cut that leaves fewer than it might leaves all.
take-whole {ℓ} :
    {A : Type ℓ} (n : ℕ) (xs : List A)
    → ltb n (length (take (suc n) xs)) ≡ false
    → take (suc n) xs ≡ xs
take-whole n [] h = refl
take-whole zero (x ∷ xs) h = absurd (ground arith)
take-whole (suc n) (x ∷ xs) h = ap (λ t. x ∷ t) (take-whole n xs (ground arith))

AnyOf-append_left : {A : Type 0} (P : A → Type 0) (xs ys : List A) → AnyOf P xs → AnyOf P (xs ++ ys)
AnyOf-append_left P [] ys m = absurd m
AnyOf-append_left P (x ∷ xs) ys (inl p) = inl p
AnyOf-append_left P (x ∷ xs) ys (inr m) = inr (AnyOf-append_left P xs ys m)

AnyOf-append_right :
    {A : Type 0} (P : A → Type 0) (xs ys : List A) → AnyOf P ys → AnyOf P (xs ++ ys)
AnyOf-append_right P [] ys m = m
AnyOf-append_right P (x ∷ xs) ys m = inr (AnyOf-append_right P xs ys m)

module _ (d : Dom) (decode : Text → Option Bytes) where
  open d use {Element, name, children}

  candidates_of-AnyOf :
      (our_rid : Text) (ks : List Element)
      → All
          (λ c. AnyOf (λ k. candidate d decode our_rid k ≡ some c) ks)
          (candidates_of d decode our_rid ks)
  unfolding candidates_of
  candidates_of-AnyOf our_rid [] = tt
  candidates_of-AnyOf our_rid (k ∷ ks) =
      let R = λ (k : Element) (c : Candidate). candidate d decode our_rid k ≡ some c in
      All-append (λ c. AnyOf (λ k. R k c) (k ∷ ks))
        (map_or (candidate d decode our_rid k) [] (λ c. c ∷ [])) (candidates_of d decode our_rid ks)
        (one (candidate d decode our_rid k) refl)
        (All-later R k ks (candidates_of d decode our_rid ks) (candidates_of-AnyOf our_rid ks))
    where
      one :
          (o : Option Candidate)
          → candidate d decode our_rid k ≡ o
          → All
              (λ c. AnyOf (λ k. candidate d decode our_rid k ≡ some c) (k ∷ ks))
              (map_or o [] (λ c. c ∷ []))
      one none e = tt
      one (some c) e = (inl e, tt)

  all_candidates-IsChosen :
      (our_bare our_rid : Text) (bs : List Element)
      → All (IsChosen d decode our_bare our_rid bs) (all_candidates d decode our_bare our_rid bs)
  unfolding all_candidates
  all_candidates-IsChosen our_bare our_rid [] = tt
  all_candidates-IsChosen our_bare our_rid (b ∷ bs) =
      All-append (IsChosen d decode our_bare our_rid (b ∷ bs))
        (if ours d decode our_bare b then candidates_of d decode our_rid (children b) else [])
        (all_candidates d decode our_bare our_rid bs) (one (ours d decode our_bare b) refl)
        (All-later R b bs (all_candidates d decode our_bare our_rid bs)
          (all_candidates-IsChosen our_bare our_rid bs))
    where
      R : Element → Candidate → Type 0
      R b c =
          (ours d decode our_bare b ≡ true)
          × AnyOf (λ k. candidate d decode our_rid k ≡ some c) (children b)

      one :
          (t : Bool)
          → ours d decode our_bare b ≡ t
          → All
              (IsChosen d decode our_bare our_rid (b ∷ bs))
              (if t then candidates_of d decode our_rid (children b) else [])
      one true e = All-first R b bs (candidates_of d decode our_rid (children b)) (
          All-pair (λ c. AnyOf (λ k. candidate d decode our_rid k ≡ some c) (children b))
            (ours d decode our_bare b ≡ true) (candidates_of d decode our_rid (children b)) e
            (candidates_of-AnyOf our_rid (children b)))
      one false e = tt

  select_key_candidates-IsChosen :
      (header : Element) (our_bare : Text) (our_device : ℕ)
      → All
          (IsChosen d decode our_bare (show_nat our_device) (children header))
          (select_key_candidates d decode header our_bare our_device).0
        × (length (select_key_candidates d decode header our_bare our_device).0 ≤ 8)
  unfolding select_key_candidates
  select_key_candidates-IsChosen header our_bare our_device = capped (take 9 found) (
      All-take (IsChosen d decode our_bare (show_nat our_device) (children header)) 9 found
        (all_candidates-IsChosen our_bare (show_nat our_device) (children header)))
    where
      found : List Candidate
      found = all_candidates d decode our_bare (show_nat our_device) (children header)

      P : Candidate → Type 0
      P = IsChosen d decode our_bare (show_nat our_device) (children header)

      cut :
          (l : List Candidate) (t : Bool)
          → ltb 8 (length l) ≡ t
          → All P l
          → All P (if t then take 8 l else l) × (length (if t then take 8 l else l) ≤ 8)
      cut l true e h = (All-take P 8 l h, length-take_le 8 l)
      cut l false e h = (h, ground (arith, e))

      capped :
          (l : List Candidate)
          → All P l
          → All P (if ltb 8 (length l) then take 8 l else l)
            × (length (if ltb 8 (length l) then take 8 l else l) ≤ 8)
      capped l h = cut l (ltb 8 (length l)) refl h

  -- A key is selected only if it is for our device and stands in a block of our JID, and at most
  -- eight are.
  pub select_key_candidates-IsOurs :
      (header : Element) (our_bare : Text) (our_device : ℕ)
      → All
          (IsOurs d decode our_bare (show_nat our_device) (children header))
          (select_key_candidates d decode header our_bare our_device).0
        × (length (select_key_candidates d decode header our_bare our_device).0 ≤ 8)
  select_key_candidates-IsOurs header our_bare our_device =
      let (chosen, few) = select_key_candidates-IsChosen header our_bare our_device in
      (
        All-map _ _ _
            (λ c. (IsChosen-iff d decode our_bare (show_nat our_device) (children header) c).0)
            chosen,
        few,
      )

  candidates_of_complete :
      (our_rid : Text) (ks : List Element) (c : Candidate)
      → AnyOf (λ k. candidate d decode our_rid k ≡ some c) ks
      → AnyOf (λ x. x ≡ c) (candidates_of d decode our_rid ks)
  unfolding candidates_of
  candidates_of_complete our_rid [] c m = absurd m
  candidates_of_complete our_rid (k ∷ ks) c (inl e) = rw e (inl refl)
  candidates_of_complete our_rid (k ∷ ks) c (inr m) =
      AnyOf-append_right (λ x. x ≡ c) (map_or (candidate d decode our_rid k) [] (λ x. x ∷ []))
        (candidates_of d decode our_rid ks) (candidates_of_complete our_rid ks c m)

  all_candidates_complete :
      (our_bare our_rid : Text) (bs : List Element) (c : Candidate)
      → IsChosen d decode our_bare our_rid bs c
      → AnyOf (λ x. x ≡ c) (all_candidates d decode our_bare our_rid bs)
  unfolding all_candidates
  all_candidates_complete our_bare our_rid [] c m = absurd m
  all_candidates_complete our_bare our_rid (b ∷ bs) c (inl (e, m)) = rw e (
      AnyOf-append_left (λ x. x ≡ c) (candidates_of d decode our_rid (children b))
        (all_candidates d decode our_bare our_rid bs)
        (candidates_of_complete our_rid (children b) c m))
  all_candidates_complete our_bare our_rid (b ∷ bs) c (inr m) =
      AnyOf-append_right (λ x. x ≡ c)
        (if ours d decode our_bare b then candidates_of d decode our_rid (children b) else [])
        (all_candidates d decode our_bare our_rid bs)
        (all_candidates_complete our_bare our_rid bs c m)

  -- Every key that is for our device and stands in a block of our JID is selected, or else eight keys
  -- are selected and the list is reported as cut off.
  pub select_key_candidates_complete :
      (header : Element) (our_bare : Text) (our_device : ℕ) (c : Candidate)
      → IsOurs d decode our_bare (show_nat our_device) (children header) c
      → AnyOf (λ x. x ≡ c) (select_key_candidates d decode header our_bare our_device).0
        ⊎ (((select_key_candidates d decode header our_bare our_device).1 ≡ true)
            × (length (select_key_candidates d decode header our_bare our_device).0 ≡ 8))
  unfolding select_key_candidates
  select_key_candidates_complete header our_bare our_device c mine = capped (
      all_candidates_complete our_bare rid (children header) c
        ((IsChosen-iff d decode our_bare rid (children header) c).1 mine))
    where
      rid : Text
      rid = show_nat our_device

      found : List Candidate
      found = all_candidates d decode our_bare rid (children header)

      first : List Candidate
      first = take 9 found

      capped :
          AnyOf (λ x. x ≡ c) found
          → AnyOf (λ x. x ≡ c) (if ltb 8 (length first) then take 8 first else first)
            ⊎ ((ltb 8 (length first) ≡ true)
                × (length (if ltb 8 (length first) then take 8 first else first) ≡ 8))
      capped there = elim (Bool-cases (ltb 8 (length first))) [
        | inl e ↦ inr (rw e (refl, length-take_full 8 first (ground arith)))
        | inr e ↦ inl (rw (e, take-whole 8 found e) there)
      ]

module _ (try : Candidate → Database → Result Bytes × Database) where
  pub attempt-success :
      (cs : List Candidate) (last : OmemoError) (db : Database) {env : Bytes} {c : Candidate}
      → (attempt try cs last db).0 ≡ success env c
      → AnyOf (λ x. x ≡ c) cs × ((before : Database) × ((try c before).0 ≡ ok env))
  unfolding attempt
  attempt-success [] last db h = cc
  attempt-success (c' ∷ cs) last db {env} {c} h =
      let out = try c' db in
      let next = attempt try cs (last_error last out.0) out.1 in
      elim (settles-success c' c out.0 next out.1 h) [
        | inl (e, same) ↦ (inl same, (db, ap (λ x. (try x db).0) (sym same) ∙ e))
        | inr h' ↦
            let (m, found) = attempt-success cs (last_error last out.0) out.1 h' in (inr m, found)
      ]
