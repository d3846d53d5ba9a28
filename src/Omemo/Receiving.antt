-- ===== src/Omemo/Receiving.antt =====
-- `decrypt` of crates/mxc-omemo/src/session.rs, and `keys_block_is_ours`, `select_key_candidates` and
-- `decrypt_message` of crates/mxc-proto/src/xeps/omemo.rs.
pub mod Attempts
pub mod Opened
pub mod Ours
use monocles_chat_desktop.Base.{
  ℕ, suc, ◌+◌, Bool, true, false, not, ◌&&◌, List, [], ◌∷◌, ◌++◌, Option, none, some, Text, codes,
  if◌then◌else◌, ◌==◌, ltb, keep, length, take, is_empty, map_or, text_eq, trim, eq_ignore_case,
}
use monocles_chat_desktop.Base.Tables.{address_key, row}
use monocles_chat_desktop.Calls.State.{bare}
use monocles_chat_desktop.Dom.{Dom, attr, get_child}
use monocles_chat_desktop.Omemo.Bundle.{parse_u32}
use monocles_chat_desktop.Omemo.Caches.{Caches, heartbeat_due}
use monocles_chat_desktop.Omemo.Database.{Address, Database, omemo_identity}
use monocles_chat_desktop.Omemo.Devices.{State, ns_omemo2}
use monocles_chat_desktop.Omemo.Error.{OmemoError, Result, ok, err, guard, ok_or, ◌>>=◌}
use monocles_chat_desktop.Omemo.Fingerprint.{fingerprint}
use monocles_chat_desktop.Omemo.Kmac.{Sponge, msg_key_len}
use monocles_chat_desktop.Omemo.Payload.{Aead, omemo2_open}
use monocles_chat_desktop.Uri.Decimal.{show_nat}
use monocles_chat_desktop.Uri.Utf8.{Bytes}

-- What is not in the repository: the hash, the cipher, base64, `hex`, and of libsignal the reading
-- and decryption of a wrapped key, which may begin a session (the flag), and the counter and the
-- ratchet key of a message that does not.
pub record Opening : Type 0 where
  pub sponge : Sponge
  pub aead : Aead
  pub decode : Text → Option Bytes
  pub hex : Bytes → Text
  pub message_decrypt : Bool → Address → Address → Bytes → Database → Result Bytes × Database
  pub signal_message : Bytes → Option (ℕ × Bytes)

-- A wrapped key and whether it begins a session.
abbrev pub Candidate : Type 0
Candidate = Bytes × Bool

module _ (o : Opening) where
  -- What is done with an unwrapped key.
  unfoldable pub with_message_key :
      Address → Option Text → Bytes → Option Bytes → Bytes → Result Bytes
  with_message_key from expected_to payload commit message_key =
      if not (length message_key == msg_key_len)
      then err OmemoError.aead
      else if is_empty payload
      then ok []
      else omemo2_open o.sponge o.aead message_key payload from.0 expected_to from.1 commit

  abbrev pub opened :
      Address
      → Option Text
      → Bytes
      → Option Bytes
      → Result Bytes × Database
      → Result Bytes × Database
  opened from expected_to payload commit (ok key, db) =
      (with_message_key from expected_to payload commit key, db)
  opened from expected_to payload commit (err e, db) = (err e, db)

  -- The ratchet is stored before the payload is touched.
  unfoldable pub decrypt :
      Address
      → Address
      → Option Text
      → Bytes
      → Option Bytes
      → Candidate
      → Database
      → Result Bytes × Database
  unfolding with_message_key
  decrypt own from expected_to payload commit c db =
      opened from expected_to payload commit (o.message_decrypt c.1 from own c.0 db)

  -- The counter and the ratchet key of a message that begins no session.
  abbrev pub whisper_ratchet_counter : Candidate → Option (ℕ × Bytes)
  whisper_ratchet_counter c = if c.1 then none else o.signal_message c.0

unfoldable pub keys_block_is_ours : Option Text → Text → Bool
unfolding bare eq_ignore_case
keys_block_is_ours jid_attr our_bare =
    map_or jid_attr false (λ jid. eq_ignore_case (bare jid) our_bare)

abbrev pub max_key_candidates : ℕ
max_key_candidates = 8

module _ (d : Dom) (decode : Text → Option Bytes) where
  open d use {Element, name, children, text}

  -- A `<key>` for the device, whose text is base64.
  unfoldable pub candidate : Text → Element → Option Candidate
  unfolding text_eq attr trim
  candidate our_rid k =
      if text_eq (name k) (codes "key")
        && map_or (attr d (codes "rid") k) false (λ rid. text_eq rid our_rid)
      then map_or (decode (trim (text k))) none
          (λ w. some (w, map_or (attr d (codes "kex") k) false (λ v. text_eq v (codes "true"))))
      else none

  unfoldable pub candidates_of : Text → List Element → List Candidate
  unfolding candidate
  candidates_of our_rid [] = []
  candidates_of our_rid (k ∷ ks) =
      map_or (candidate our_rid k) [] (λ c. c ∷ []) ++ candidates_of our_rid ks

  -- Those of the blocks that bear our JID.
  unfoldable pub all_candidates : Text → Text → List Element → List Candidate
  unfolding candidates_of keys_block_is_ours text_eq attr
  all_candidates our_bare our_rid [] = []
  all_candidates our_bare our_rid (b ∷ bs) =
      (if text_eq (name b) (codes "keys") && keys_block_is_ours (attr d (codes "jid") b) our_bare
        then candidates_of our_rid (children b)
        else [])
      ++ all_candidates our_bare our_rid bs

  -- With whether there were more than the cap.
  unfoldable pub select_key_candidates : Element → Text → ℕ → List Candidate × Bool
  unfolding all_candidates show_nat
  select_key_candidates header our_bare our_device =
      let found =
        take (suc max_key_candidates)
          (all_candidates our_bare (show_nat our_device) (children header)) in
      let truncated = ltb max_key_candidates (length found) in
      (if truncated then take max_key_candidates found else found, truncated)

-- The attempts: the envelope with the candidate that opened, or the last error.
pub data Attempted : Type 0 where
  success : Bytes → Candidate → Attempted
  failure : OmemoError → Attempted

abbrev pub is_aead : OmemoError → Bool
is_aead OmemoError.aead = true
is_aead _ = false

-- One attempt in the loop: what it says, or none if the loop goes on.
abbrev pub settles : Candidate → Result Bytes → Option Attempted
settles c (ok env) = some (success env c)
settles c (err e) = if is_aead e then some (failure e) else none

abbrev pub last_error : OmemoError → Result Bytes → OmemoError
last_error e (ok _) = e
last_error e (err e') = e'

module _ (try : Candidate → Database → Result Bytes × Database) where
  -- Each candidate in turn, until one opens or its payload fails.
  unfoldable pub attempt : List Candidate → OmemoError → Database → Attempted × Database
  attempt [] last db = (failure last, db)
  attempt (c ∷ cs) last db =
      let out = try c db in
      let rest = attempt cs (last_error last out.0) out.1 in
      map_or (settles c out.0) rest (λ a. (a, out.1))

pub record Decrypted : Type 0 where
  pub envelope : Bytes
  pub sender_device : ℕ
  pub fingerprint : Text
  pub was_kex : Bool
  pub key_transport : Bool
  pub heartbeat_due : Bool

-- What is read of an `<encrypted>`.
pub record Stanza (E : Type 0) : Type 0 where
  pub header : E
  pub sid : ℕ
  pub key_transport : Bool
  pub payload : Bytes
  pub commit : Option Bytes

module _ (d : Dom) (o : Opening) where
  open d use {Element, text}

  abbrev child_bytes : Text → Element → Option (Result Bytes)
  child_bytes n e =
      map_or (get_child d n ns_omemo2 e) none
        (λ c. some (ok_or (o.decode (trim (text c))) OmemoError.base64))

  unfoldable pub read_stanza : Element → Result (Stanza Element)
  unfolding get_child attr parse_u32 trim
  read_stanza encrypted = do
    header ← ok_or (get_child d (codes "header") ns_omemo2 encrypted) OmemoError.bundle_parse
    sid ← ok_or (map_or (attr d (codes "sid") header) none parse_u32) OmemoError.bundle_parse
    payload ← map_or (child_bytes (codes "payload") encrypted) (ok []) (λ m. m)
    commit ← map_or (child_bytes (codes "commit") encrypted) (ok none) (λ m. m >>= λ c. ok (some c))
    ok record {
      header = header;
      sid = sid;
      key_transport = map_or (get_child d (codes "payload") ns_omemo2 encrypted) true (λ _. false);
      payload = payload;
      commit = commit;
    }

  abbrev heartbeat : Address → Option (ℕ × Bytes) → Caches → Bool × Caches
  heartbeat from none c = (false, c)
  heartbeat from (some (counter, ratchet_key)) c = heartbeat_due from counter ratchet_key c

  -- The result, and the state with what the ratchet and the heartbeats left.
  unfoldable pub conclude :
      Stanza Element → Address → Caches → Attempted × Database → Result Decrypted × State
  unfolding row fingerprint heartbeat_due
  conclude s from c (failure e, db) = (err e, record { db = db; caches = c })
  conclude s from c (success env cand, db) =
      let (due, c') = heartbeat from (whisper_ratchet_counter o cand) c in
      (
        ok record {
          envelope = env;
          sender_device = s.sid;
          fingerprint = map_or (omemo_identity from db) [] (λ r. fingerprint o.hex r.identity_key);
          was_kex = cand.1;
          key_transport = s.key_transport;
          heartbeat_due = due;
        },
        record { db = db; caches = c' },
      )

  unfoldable pub receive :
      Address → Text → Option Text → State → Result (Stanza Element) → Result Decrypted × State
  unfolding conclude
  receive own sender_bare expected_to st (err e) = (err e, st)
  receive own sender_bare expected_to st (ok s) =
      let candidates = (select_key_candidates d o.decode s.header own.0 own.1).0 in
      let from : Address = (sender_bare, s.sid) in
      if is_empty candidates
      then (err OmemoError.signal, st)
      else conclude s from st.caches (
          attempt (decrypt o own from expected_to s.payload s.commit) candidates OmemoError.signal
            st.db)

  unfoldable pub decrypt_message :
      Address → Element → Text → Option Text → State → Result Decrypted × State
  decrypt_message own encrypted sender_bare expected_to st =
      receive own sender_bare expected_to st (read_stanza encrypted)
