-- ===== src/Omemo/MessageTests.antt =====
-- A message that is sent and one that is received, on concrete inputs.
use monocles_chat_desktop.Base.{
  ◌⊎◌, AnyOf, inl, inr, ℕ, ◌≡◌, ◌≤◌, refl, true, false, some, [], ◌∷◌, ◌++◌, Text, codes, All,
  length, split, text_eq, arith,
}
use monocles_chat_desktop.Base.Tables.{address_key, row, upsert}
use monocles_chat_desktop.Dom.{Tree, tree_dom}
use monocles_chat_desktop.Omemo.Database.{Address}
use monocles_chat_desktop.Omemo.Devices.{ns_omemo2, sessions_for}
use monocles_chat_desktop.Omemo.Error.{ok}
use monocles_chat_desktop.Omemo.Healing.{silent, heal_session}
use monocles_chat_desktop.Omemo.Healing.Quiet.{heal_session_once}
use monocles_chat_desktop.Omemo.Kmac.{zeros}
use monocles_chat_desktop.Omemo.Payload.{omemo2_open}
use monocles_chat_desktop.Omemo.Caches.{may_heal}
use monocles_chat_desktop.Omemo.Trust.{save_identity}
use monocles_chat_desktop.Omemo.Receiving.{
  Candidate, Decrypted, Stanza, read_stanza, select_key_candidates, decrypt_message, receive,
  attempt, decrypt,
}
use monocles_chat_desktop.Omemo.Receiving.Attempts.{
  select_key_candidates-IsOurs, select_key_candidates_complete,
}
use monocles_chat_desktop.Omemo.Receiving.Ours.{IsOurs}
use monocles_chat_desktop.Omemo.Receiving.Opened.{Grounds, decrypt_message-Grounds}
use monocles_chat_desktop.Omemo.Sending.{encrypt_for_recipients}
use monocles_chat_desktop.Omemo.Sending.Safe.{Right, encrypt_for_recipients-Right}
use monocles_chat_desktop.Omemo.Worlds.{signal_laws, peers, first_run, sealing, opening}
use monocles_chat_desktop.Uri.Decimal.{show_nat}

-- A session is established with the one device there is, which is trusted at first sight.
sessions_for_peer : (sessions_for tree_dom peers (codes "b@y") first_run).0 ≡ (codes "b@y", 7) ∷ []
unfolding sessions_for row upsert address_key text_eq save_identity
sessions_for_peer = refl

encrypt_for_recipients-Right_example :
    Right tree_dom sealing peers signal_laws
      (codes "b@y" ∷ [])
      first_run
      (encrypt_for_recipients tree_dom sealing peers
        (codes "b@y" ∷ [])
        (some (codes "b@y"))
        (codes "hi")
        first_run).0
encrypt_for_recipients-Right_example =
    encrypt_for_recipients-Right tree_dom sealing peers signal_laws (codes "b@y" ∷ [])
      (some (codes "b@y")) (codes "hi") first_run

abbrev key_tag : Text → Tree
key_tag rid =
    tree_dom.build (codes "key") ns_omemo2 ((codes "rid", rid) ∷ (codes "kex", codes "true") ∷ [])
      [] (codes "wrapped")

-- Keys for our device: in another's block, and in our own.
abbrev header_tag : Tree
header_tag =
    tree_dom.build (codes "header") ns_omemo2 ((codes "sid", codes "7") ∷ [])
      (tree_dom.build (codes "keys") ns_omemo2 ((codes "jid", codes "c@z") ∷ [])
          (key_tag (codes "3") ∷ []) []
        ∷ tree_dom.build (codes "keys") ns_omemo2 ((codes "jid", codes "A@X") ∷ [])
            (key_tag (codes "4") ∷ key_tag (codes "3") ∷ []) []
        ∷ [])
      []

select_key_candidates-IsOurs_example :
    All
      (IsOurs tree_dom opening.decode (codes "a@x") (show_nat 3) (tree_dom.children header_tag))
      (select_key_candidates tree_dom opening.decode header_tag (codes "a@x") 3).0
    × (length (select_key_candidates tree_dom opening.decode header_tag (codes "a@x") 3).0 ≤ 8)
select_key_candidates-IsOurs_example =
    select_key_candidates-IsOurs tree_dom opening.decode header_tag (codes "a@x") 3

select_key_candidates_complete_example :
    AnyOf
      (λ x. x ≡ (codes "wrapped", true))
      (select_key_candidates tree_dom opening.decode header_tag (codes "a@x") 3).0
    ⊎ (((select_key_candidates tree_dom opening.decode header_tag (codes "a@x") 3).1 ≡ true)
        × (length (select_key_candidates tree_dom opening.decode header_tag (codes "a@x") 3).0 ≡ 8))
unfolding select_key_candidates split
select_key_candidates_complete_example =
    select_key_candidates_complete tree_dom opening.decode header_tag (codes "a@x") 3
      (codes "wrapped", true) mine
  where
    mine :
        IsOurs tree_dom opening.decode
          (codes "a@x")
          (show_nat 3)
          (tree_dom.children header_tag)
          (codes "wrapped", true)
    mine =
        inr
          (inl ((refl, (codes "A@X", refl, refl)), inr (inl (refl, refl, refl, inl (refl, refl)))))

abbrev encrypted_tag : Tree
encrypted_tag =
    tree_dom.build (codes "encrypted") ns_omemo2 []
      (header_tag
        ∷ tree_dom.build (codes "payload") ns_omemo2 [] [] (zeros 16 ++ codes "hi")
        ∷ tree_dom.build (codes "commit") ns_omemo2 [] [] (zeros 64)
        ∷ [])
      []

abbrev hi : Decrypted
hi = record {
  envelope = codes "hi";
  sender_device = 7;
  fingerprint = [];
  was_kex = true;
  key_transport = false;
  heartbeat_due = false;
}

abbrev own : Address
own = (codes "a@x", 3)

decrypt_message-Grounds_example :
    (s : Stanza Tree) × (c : Candidate) × (read_stanza tree_dom opening encrypted_tag ≡ ok s)
    × (◌≡◌ {A = ℕ} 7 s.sid)
    × Grounds tree_dom opening own (codes "b@y", s.sid) (some (codes "a@x")) s (codes "hi") c
unfolding decrypt_message read_stanza receive select_key_candidates split attempt decrypt
    omemo2_open
decrypt_message-Grounds_example =
    decrypt_message-Grounds tree_dom opening own encrypted_tag (codes "b@y") (some (codes "a@x"))
      first_run {r = hi} refl

heal_session_once_example :
    heal_session tree_dom sealing
      (record peers { now = 2000 })
      (codes "b@y", 7)
      (codes "heal-2")
      (codes "e")
      (heal_session tree_dom sealing peers
        (codes "b@y", 7)
        (codes "heal-1")
        (codes "e")
        first_run).1
    ≡ (
      silent,
      (heal_session tree_dom sealing peers
          (codes "b@y", 7)
          (codes "heal-1")
          (codes "e")
          first_run).1,
    )
unfolding may_heal
heal_session_once_example =
    heal_session_once tree_dom sealing peers (codes "b@y", 7) (codes "heal-1") (codes "heal-2")
      (codes "e") (codes "e") first_run 2000 refl (omega arith)
