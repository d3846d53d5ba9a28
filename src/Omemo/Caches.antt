-- ===== src/Omemo/Caches.antt =====
-- The caches of crates/mxc-proto/src/xeps/omemo.rs, of one account, that limit what the client asks
-- and sends: failures to establish a session, device lists, heals and heartbeats.
use monocles_chat_desktop.Base.{
  ℕ, ◌-◌, ◌*◌, Bool, true, false, not, List, [], ◌∷◌, Option, none, some, Text, if◌then◌else◌, ltb,
  keep, map_or, text_eq,
}
use monocles_chat_desktop.Base.Tables.{Table, text_key, address_key, row, delete, upsert}
use monocles_chat_desktop.Omemo.Database.{Address}
use monocles_chat_desktop.Uri.Utf8.{Bytes}

-- Instants are in milliseconds.
pub record Caches : Type 0 where
  pub establish_failures : Table Address ℕ
  -- The sorted list last seen, by JID.
  pub device_list_seen : Table Text (List ℕ)
  pub heal_attempts : Table Address ℕ
  pub pq_pin_reconcile_attempts : List Address
  pub heartbeat_sent : Table Address Bytes

abbrev pub establish_retry_backoff : ℕ
establish_retry_backoff = 600 * 1000

-- `t.elapsed() < limit`.
abbrev pub within_window : ℕ → ℕ → Option ℕ → Bool
within_window now limit none = false
within_window now limit (some t) = ltb (now - t) limit

-- An entry that is too old goes.
unfoldable pub recently_failed : ℕ → Address → Caches → Bool × Caches
unfolding row delete
recently_failed now addr c =
    if within_window now establish_retry_backoff (row addr c.establish_failures)
    then (true, c)
    else (false, record c { establish_failures = delete addr c.establish_failures })

unfoldable pub note_establish_failure : ℕ → Address → Caches → Caches
unfolding upsert
note_establish_failure now addr c = record c {
  establish_failures = upsert addr now (λ _. now) c.establish_failures;
}

unfoldable pub note_establish_success : Address → Caches → Caches
unfolding delete
note_establish_success addr c = record c { establish_failures = delete addr c.establish_failures }

-- `retain` but for the devices of a JID.
unfoldable pub forget_jid_failures : Text → Caches → Caches
unfolding text_eq
forget_jid_failures jid c = record c {
  establish_failures = keep (λ p. not (text_eq p.0.0 jid)) c.establish_failures;
}

unfoldable insert_sorted : ℕ → List ℕ → List ℕ
insert_sorted n [] = n ∷ []
insert_sorted n (m ∷ ms) = if ltb m n then m ∷ insert_sorted n ms else n ∷ m ∷ ms

-- `sort_unstable` on numbers.
unfoldable pub sorted : List ℕ → List ℕ
unfolding insert_sorted
sorted [] = []
sorted (n ∷ ns) = insert_sorted n (sorted ns)

-- A changed list clears the failures of its JID.
unfoldable pub refresh_device_list : Text → List ℕ → Caches → Caches
unfolding sorted row upsert text_eq forget_jid_failures
refresh_device_list jid devices c =
    let list = sorted devices in
    let changed =
      map_or (row ⦃key = text_key⦄ jid c.device_list_seen) true (λ prev. not (text_eq prev list)) in
    let c' = record c {
      device_list_seen = upsert ⦃key = text_key⦄ jid list (λ _. list) c.device_list_seen;
    } in
    if changed then forget_jid_failures jid c' else c'

-- The maps of one account are emptied, but for the heals and the reconciliations.
abbrev pub forget_caches : Caches → Caches
forget_caches c = record c { establish_failures = []; device_list_seen = []; heartbeat_sent = [] }

abbrev pub heal_cooldown : ℕ
heal_cooldown = 300 * 1000

unfoldable pub may_heal : ℕ → Address → Caches → Bool × Caches
unfolding row upsert
may_heal now addr c =
    if within_window now heal_cooldown (row addr c.heal_attempts)
    then (false, c)
    else (true, record c { heal_attempts = upsert addr now (λ _. now) c.heal_attempts })

abbrev pub heartbeat_counter_threshold : ℕ
heartbeat_counter_threshold = 53

unfoldable pub heartbeat_due : Address → ℕ → Bytes → Caches → Bool × Caches
unfolding row upsert text_eq
heartbeat_due addr counter ratchet_key c =
    if ltb counter heartbeat_counter_threshold
    then (false, c)
    else if map_or (row addr c.heartbeat_sent) false (λ prev. text_eq prev ratchet_key)
    then (false, c)
    else (
      true,
      record c { heartbeat_sent = upsert addr ratchet_key (λ _. ratchet_key) c.heartbeat_sent },
    )
