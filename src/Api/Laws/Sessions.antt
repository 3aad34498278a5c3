-- ===== src/Api/Laws/Sessions.antt =====
-- The end of a session at the request of the management interface.
use hop_rs.Prelude.{
  Bool, Bool-cases, Option, Text, ap, false, if◌then◌else◌, inl, inr, is_some, none, not, ok,
  option_map, refl, some, text, true, ◌&&◌, ◌==◌, ◌↔◌, ◌∙◌, ◌≡◌,
}
use hop_rs.Prelude.Map.{lookup}
use hop_rs.Runtime.Sessions.{get_session}
use hop_rs.Runtime.Laws.Finished.{ended_row, get_session-finish_session}
use hop_rs.Ssh.Registry.{
  TerminateSessionResult, signaled, not_found, terminate, reached, with_request, terminate_lem,
}
use hop_rs.Api.{ControlApiState, Server, Context}
use hop_rs.Api.Handlers.{authenticate, signal_session, finish_terminated, terminate_session_handler}

-- What follows a result, for the answer and for the rows.
finish_terminated-rows :
    (c : Context) (st : ControlApiState) (id other : Text) (result : TerminateSessionResult)
    (told : Bool) (s : Server)
    → ((result ≡ signaled) ↔ (told ≡ true))
    → let (response, after) = finish_terminated c st id result s in
      (response ≡ ok (record { id = id; terminated = told }))
      × (after.channels ≡ s.channels)
      × (after.active_sessions ≡ s.active_sessions)
      × (get_session other after.catalog ≡ (
          if told && id == other
          then option_map
              (ended_row c.call.now (text "terminated") (some (text "terminated by control API")))
              (get_session other s.catalog)
          else get_session other s.catalog))
unfolding finish_terminated
finish_terminated-rows c st id other signaled told s same = rw (same.0 refl) (
  refl,
  refl,
  refl,
  get_session-finish_session c.call.now id other (text "terminated")
      (some (text "terminated by control API")) s.catalog,
)
finish_terminated-rows c st id other not_found told s same =
    let untold : told ≡ false = elim (Bool-cases told) [
      | inl was_told ↦ let clash = same.1 was_told in cc
      | inr untold ↦ untold
    ] in
    rw untold (refl, refl, refl, refl)

-- A request to end a session, where it is let in, sends one request to terminate exactly where the
-- session is registered with a receiver that is alive, and to that receiver. It answers whether it
-- did. Where it did, the row of the session, if it has one, is finished, at the time of the request
-- and as terminated; no other row changes, and none where it did not. An entry without a receiver
-- is removed, and no other entry changes.
pub terminate_session_handler-ends :
    (c : Context) (st : ControlApiState) (id other : Text) (h : Option Text) (s : Server)
    → authenticate c st h ≡ ok tt
    → let (response, after) = terminate_session_handler c st id h s in
      let told = reached id s.active_sessions s.channels in
      (response ≡ ok (record { id = id; terminated = is_some told }))
      × (after.channels.sent ≡ with_request told s.channels.sent)
      × (get_session other after.catalog ≡ (
          if is_some told && id == other
          then option_map
              (ended_row c.call.now (text "terminated") (some (text "terminated by control API")))
              (get_session other s.catalog)
          else get_session other s.catalog))
      × (lookup other after.active_sessions.inner ≡ (
          if is_some (lookup id s.active_sessions.inner) && not (is_some told) && id == other
          then none
          else lookup other s.active_sessions.inner))
unfolding terminate_session_handler signal_session
terminate_session_handler-ends c st id other h s entered =
    let (tells, sends, entries) =
      terminate_lem id other s.active_sessions s.active_sessions s.channels in
    let (result, left, channels) = terminate id s.active_sessions s.active_sessions s.channels in
    let signal = record s { active_sessions = left; channels = channels } in
    let told = is_some (reached id s.active_sessions s.channels) in
    let (answer, same_channels, same_sessions, rows) =
      finish_terminated-rows c st id other result told signal tells in
    rw (terminate_session_handler, entered)
      (
        answer,
        ap (λ x. x.sent) same_channels ∙ sends,
        rows,
        ap (λ r. lookup other r.inner) same_sessions ∙ entries,
      )
