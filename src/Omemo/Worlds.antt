-- ===== src/Omemo/Worlds.antt =====
-- Concrete parameters for the tests: a hash, a cipher, a handshake, peers with one device.
use monocles_chat_desktop.Base.{
  ℕ, zero, suc, ◌≡◌, sym, ap, ◌∙◌, Bool, true, false, List, [], ◌∷◌, ◌++◌, Option, none, some, Text,
  codes, if◌then◌else◌, ltb, length, drop, is_some, map_or, text_eq, arith,
}
use monocles_chat_desktop.Base.Tables.{Table, address_key, row, upsert, row-upsert, same_refl}
use monocles_chat_desktop.Dom.{Tree, tree_dom}
use monocles_chat_desktop.Omemo.Bundle.{Reading}
use monocles_chat_desktop.Omemo.Bytes.{IsBytes}
use monocles_chat_desktop.Omemo.Caches.{Caches}
use monocles_chat_desktop.Omemo.Database.{Address, Database, resaved}
use monocles_chat_desktop.Omemo.Devices.{State, Peers, ns_omemo2, ns_pubsub}
use monocles_chat_desktop.Omemo.Devices.Usable.{SignalLaws}
use monocles_chat_desktop.Omemo.Error.{Result, ok}
use monocles_chat_desktop.Omemo.Establish.{Signal, PreKeyBundle}
use monocles_chat_desktop.Omemo.Kmac.{Sponge, zeros}
use monocles_chat_desktop.Omemo.Payload.{Aead, AeadLaws}
use monocles_chat_desktop.Omemo.Receiving.{Opening}
use monocles_chat_desktop.Omemo.Sending.{Sealing}
use monocles_chat_desktop.Omemo.Trust.{save_identity}
use monocles_chat_desktop.Sce.Reader.{XmlEvent, start, text}
use monocles_chat_desktop.Uri.Utf8.{Bytes}

abbrev pub flat_sponge : Sponge
flat_sponge = record { cshake256 = λ name custom x n. zeros n }

pub zeros-IsBytes : (n : ℕ) → IsBytes (zeros n)
zeros-IsBytes zero = tt
zeros-IsBytes (suc n) = (omega arith, zeros-IsBytes n)

-- The tag precedes the text.
abbrev pub open_aead : Aead
open_aead = record {
  encrypt = λ key nonce aad msg. some (zeros 16 ++ msg);
  decrypt = λ key nonce aad c. some (drop 16 c);
}

abbrev text_of : Option Bytes → Option Bytes
text_of o = map_or o none (λ c. some (drop 16 c))

abbrev short_of : Option Bytes → Bool
short_of o = map_or o false (λ c. ltb (length c) 16)

pub open_aead_laws : AeadLaws open_aead
open_aead_laws = record {
  decrypt-encrypt = λ key nonce aad msg c e. sym (ap text_of e);
  tagged = λ key nonce aad msg c e. sym (ap short_of e) ∙ long msg;
}
  where
    long : (msg : Bytes) → ltb (length (zeros 16 ++ msg)) 16 ≡ false
    long msg = ground arith

-- A handshake stores a session and the identity.
abbrev pub greet : Address → Address → PreKeyBundle → Database → Result (Unit {0}) × Database
greet remote own q db =
    let db' = (save_identity remote q.identity db).0 in
    (ok tt, record db' { sessions = upsert remote (1 ∷ []) (λ _. 1 ∷ []) db.sessions })

abbrev pub signal : Signal
signal = record {
  identity = λ b. some b;
  is_pq_identity = λ b. true;
  is_pq_signature = λ b. true;
  is_public = λ b. true;
  is_kem_public = λ b. true;
  is_device_id = λ id. true;
  pq_kem_binding = λ id key others. key;
  pq_bundle_transcript = λ ik pq id spk binding. pq;
  verify = λ key msg sig. true;
  process_prekey_bundle = greet;
  hex = λ b. b;
}

apart :
    {V : Type 0} (k j : Address) (v : V) (f : V → V) (t : Table Address V)
    → address_key.same k j ≡ false
    → row j (upsert k v f t) ≡ row j t
apart k j v f t differ = ground (arith, row-upsert k j v f t)

there :
    (k : Address) (t : Table Address Bytes)
    → is_some (row k (upsert k (1 ∷ []) (λ _. 1 ∷ []) t)) ≡ true
there k t = ground (arith, row-upsert k k (1 ∷ []) (λ _. 1 ∷ []) t, same_refl k)

pub signal_laws : SignalLaws signal
unfolding save_identity
signal_laws = record {
  elsewhere = λ remote own c q db differ. (
    apart remote c (1 ∷ []) (λ _. 1 ∷ []) db.sessions differ,
    apart remote c _ (resaved q.identity) db.identities differ,
  );
  stored = λ remote own q db e. there remote db.sessions;
}

-- The keys of a bundle begin with the tag of ML-KEM-1024.
abbrev pub reading : Reading
reading = record { b64 = λ t. some (10 ∷ t); unescape = λ t. some t }

abbrev element : Text → XmlEvent
element name = start name []

abbrev pub bundle_events : List XmlEvent
bundle_events =
    element (codes "spk")
    ∷ text (codes "s")
    ∷ element (codes "ik")
    ∷ text (codes "i")
    ∷ element (codes "pk")
    ∷ text (codes "p")
    ∷ element (codes "kem-spk")
    ∷ text (codes "k")
    ∷ element (codes "kem-pk")
    ∷ text (codes "o")
    ∷ element (codes "pq-ik")
    ∷ text (codes "q")
    ∷ element (codes "pq-sig")
    ∷ text (codes "g")
    ∷ []

abbrev reply_of : Tree → Tree
reply_of payload =
    tree_dom.build (codes "iq") [] []
      (tree_dom.build (codes "pubsub") ns_pubsub []
          (tree_dom.build (codes "items") ns_pubsub []
              (tree_dom.build (codes "item") ns_pubsub [] (payload ∷ []) [] ∷ []) []
            ∷ [])
          []
        ∷ [])
      []

-- Only b@y has a device.
abbrev pub peers : Peers tree_dom
peers = record {
  items = λ jid n.
      if text_eq jid (codes "b@y")
      then some (
          reply_of (
            tree_dom.build (codes "devices") ns_omemo2 []
              (tree_dom.build (codes "device") ns_omemo2 ((codes "id", codes "7") ∷ []) [] [] ∷ [])
              []))
      else none;
  item = λ jid n id. some (reply_of (tree_dom.build (codes "bundle") ns_omemo2 [] [] []));
  events = λ e. bundle_events;
  reading = reading;
  signal = signal;
  own = codes "a@x";
  our_device = 3;
  now = 1000;
}

abbrev pub no_rows : Database
no_rows = record {
  identities = [];
  sessions = [];
  pins = [];
  prekeys = [];
  signed_prekeys = [];
  kyber_prekeys = [];
  initiations = [];
  auto_trust = none;
}

abbrev pub no_caches : Caches
no_caches = record {
  establish_failures = [];
  device_list_seen = [];
  heal_attempts = [];
  pq_pin_reconcile_attempts = [];
  heartbeat_sent = [];
}

abbrev pub first_run : State
first_run = record { db = no_rows; caches = no_caches }

abbrev pub message_key : Bytes
message_key = zeros 32

abbrev pub sealing : Sealing
sealing = record {
  sponge = flat_sponge;
  aead = open_aead;
  encode = λ b. b;
  message_key = message_key;
  message_encrypt = λ remote own key db. (ok (key, true), db);
}

abbrev pub opening : Opening
opening = record {
  sponge = flat_sponge;
  aead = open_aead;
  decode = λ t. some t;
  hex = λ b. b;
  message_decrypt = λ kex remote own wrapped db. (ok message_key, db);
  signal_message = λ wrapped. none;
}
