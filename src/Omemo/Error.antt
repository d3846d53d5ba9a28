-- ===== src/Omemo/Error.antt =====
-- `OmemoError` of crates/mxc-omemo/src/lib.rs and its `Result`.
use monocles_chat_desktop.Base.{
  ◌≡◌, refl, Option, none, some, Text, Bool, true, false, if◌then◌else◌,
}

-- The errors, without the texts that only a log shows.
pub data OmemoError : Type 0 where
  bundle_parse base64 bad_signature no_pqxdh no_pq_identity store signal aead : OmemoError
  pq_identity_changed : Text → OmemoError

pub data Result {ι} (T : Type ι) : Type ι where
  err : OmemoError → Result T
  ok : T → Result T

-- `Option::ok_or`.
abbrev pub ok_or {ι} : {T : Type ι} → Option T → OmemoError → Result T
ok_or (some value) e = ok value
ok_or none e = err e

-- `if !test { return Err(e) }`.
abbrev pub guard : Bool → OmemoError → Result (Unit {0})
guard test e = if test then ok tt else err e

-- `Result::and_then`, which is what `?` does.
abbrev pub and_then {ι κ} : {S : Type ι} {T : Type κ} → (S → Result T) → Result S → Result T
and_then next (err e) = err e
and_then next (ok value) = next value

infixl 5 ◌>>◌ ◌>>=◌
abbrev pub ◌>>=◌ {ι κ} : {S : Type ι} {T : Type κ} → Result S → (S → Result T) → Result T
before >>= next = and_then next before

abbrev pub ◌>>◌ {ι} : {T : Type ι} → Result (Unit {0}) → Result T → Result T
before >> after = and_then (λ _. after) before

-- A success of two steps is one of each.
pub >>=-eq-ok {ι κ} :
    {S : Type ι} {T : Type κ} (before : Result S) (next : S → Result T) {t : T}
    → before >>= next ≡ ok t
    → (value : S) × (before ≡ ok value) × (next value ≡ ok t)
>>=-eq-ok (err e) next success = cc
>>=-eq-ok (ok value) next success = (value, refl, success)

pub guard-eq-ok {ι} :
    {T : Type ι} (test : Bool) (e : OmemoError) (after : Result T) {t : T}
    → guard test e >> after ≡ ok t
    → (test ≡ true) × (after ≡ ok t)
guard-eq-ok false e after success = cc
guard-eq-ok true e after success = (refl, success)

pub ok_or-eq-ok {ι} :
    {T : Type ι} (o : Option T) (e : OmemoError) {t : T} → ok_or o e ≡ ok t → o ≡ some t
ok_or-eq-ok none e success = cc
ok_or-eq-ok (some value) e success = cc
