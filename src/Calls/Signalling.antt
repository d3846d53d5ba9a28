-- ===== src/Calls/Signalling.antt =====
-- Jingle Message Initiation: ringing, answering, declining and ending a call.
use monocles_chat_desktop.Base.{
  ℕ, Bool, true, false, ◌&&◌, [], Option, none, some, Text, codes, if◌then◌else◌, any, find,
  text_eq, eq_ignore_case, is_some, unwrap_or, lookup, insert, remove,
}
use monocles_chat_desktop.Calls.Action.{JmiAction, jmi_action, is_answer}
use monocles_chat_desktop.Calls.State.{
  CallMeta, incoming, connecting, ended, Role, caller, callee, created, hang_up_engine, engine, Env,
  M, ◌>>=◌, ◌>>◌, done, gets, modify, effect, next_id, send, and_then, skip, bare, mark_answered,
  log_call_end, terminate_local, emit,
}
use monocles_chat_desktop.Calls.Stanzas.{
  ns_jmi, jmi, jmi_with_device, propose_message, terminate_iq,
}
use monocles_chat_desktop.Dom.{Dom, attr}

abbrev pub new_meta : Env → Text → Bool → Bool → CallMeta
new_meta env peer outgoing video = record {
  peer = peer;
  outgoing = outgoing;
  video = video;
  answered = false;
  ts = env.now;
}

module _ (d : Dom) (env : Env) where
  open d use {Element, name, ns, children}

  -- Create the engine and record the call. What the engine's pump does later are the steps of
  -- `engine_connected` and `engine_failed`.
  unfoldable pub start_call : Text → Text → Role → Bool → Option Text → M Element Bool
  start_call sid peer_full role video room =
      if env.engine_starts sid
      then (do
        effect (engine sid (created role video (is_some room)))
        modify (λ c. record c {
          active =
              insert sid
                (record {
                  peer_full = peer_full;
                  remote_contents = [];
                  video = video;
                  pending_video = [];
                  peer_used_omemo = false;
                  room = room;
                })
                c.active;
        })
        done true)
      else done false

  unfoldable pub propose : Text → Text → Bool → M Element Bool
  unfolding bare
  propose to sid video = do
    modify (λ c. record c {
      proposed = insert sid video c.proposed;
      meta = insert sid (new_meta env (bare to) true video) c.meta;
    })
    send env (propose_message d to sid video)

  unfoldable pub reject : Text → Text → M Element Bool
  unfolding log_call_end
  reject caller_jid sid = do
    modify (λ c. record c { incoming = remove sid c.incoming })
    log_call_end sid
    and_then (send env (jmi d caller_jid (codes "reject") sid))
        (send env (jmi d env.own (codes "reject") sid))

  unfoldable pub retract : Text → Text → M Element Bool
  retract to sid = do
    modify (λ c. record c { proposed = remove sid c.proposed })
    send env (jmi d to (codes "retract") sid)

  unfoldable pub accept : Text → Text → Option ℕ → M Element Bool
  unfolding mark_answered start_call
  accept sid peer_hint own_device = do
    ringing ← gets (λ c. unwrap_or (lookup sid c.incoming) (peer_hint, false))
    modify (λ c. record c { incoming = remove sid c.incoming })
    mark_answered sid
    and_then (start_call sid ringing.0 callee ringing.1 none) (
        and_then (send env (jmi_with_device d ringing.0 (codes "proceed") sid own_device))
          (send env (jmi d env.own (codes "accept") sid)))

  unfoldable pub hang_up : Text → Text → M Element Bool
  unfolding log_call_end
  hang_up peer_hint sid = do
    call ← gets (λ c. lookup sid c.active)
    modify (λ c. record c {
      active = remove sid c.active;
      proposed = remove sid c.proposed;
      incoming = remove sid c.incoming;
    })
    log_call_end sid
    elim call [
      | some a ↦ (do
        id ← next_id env (codes "jingle")
        _ ← send env (terminate_iq d id a.peer_full sid)
        effect (engine sid hang_up_engine)
        done true)
      | none ↦ send env (jmi d peer_hint (codes "retract") sid)
    ]

  -- One action of a peer, by the match of `handle_message`.
  unfoldable pub handle_action : JmiAction → Text → Text → Bool → M Element (Unit {0})
  unfolding mark_answered log_call_end terminate_local emit start_call bare
  handle_action JmiAction.propose sid from video = do
    modify (λ c. record c {
      incoming = insert sid (from, video) c.incoming;
      meta = insert sid (new_meta env (bare from) false video) c.meta;
    })
    emit sid (bare from) video incoming
  handle_action JmiAction.proceed sid from video = do
    proposed ← gets (λ c. lookup sid c.proposed)
    modify (λ c. record c { proposed = remove sid c.proposed })
    elim proposed [
      | none ↦ skip
      | some offered ↦ (do
        mark_answered sid
        _ ← start_call sid from caller offered none
        emit sid (bare from) offered connecting)
    ]
  handle_action JmiAction.reject sid from video = do
    terminate_local sid
    log_call_end sid
    emit sid (bare from) video (ended (codes "Call declined"))
  handle_action JmiAction.accept sid from video = skip
  handle_action _ sid from video = do
    terminate_local sid
    modify (λ c. record c { incoming = remove sid c.incoming })
    log_call_end sid
    emit sid (bare from) video (ended (codes "Caller cancelled"))

  -- Our own answer on another device, or a peer's action.
  unfoldable pub handle_jmi : JmiAction → Text → Text → Bool → M Element (Unit {0})
  unfolding handle_action
  handle_jmi action sid from video =
      if eq_ignore_case (bare from) env.own && is_answer action
      then (do
        modify (λ c. record c { incoming = remove sid c.incoming })
        log_call_end sid
        emit sid (bare from) video (ended (codes "Handled on another device")))
      else handle_action action sid from video

  abbrev is_video : Element → Bool
  is_video e =
      text_eq (name e) (codes "description")
      && elim (attr d (codes "media") e) [ none ↦ false | some m ↦ text_eq m (codes "video") ]

  -- Whether the message was consumed.
  unfoldable pub handle_message : Element → M Element Bool
  unfolding handle_jmi jmi_action attr
  handle_message msg =
      elim (find (λ c. text_eq (ns c) ns_jmi && is_some (jmi_action (name c))) (children msg)) [
        | none ↦ done false
        | some e ↦ elim (jmi_action (name e)) [
          | none ↦ done false
          | some action ↦ elim (attr d (codes "id") e) [
            | none ↦ done true
            | some sid ↦ (do
              handle_jmi action sid (unwrap_or (attr d (codes "from") msg) [])
                  (any is_video (children e))
              done true)
          ]
        ]
      ]
