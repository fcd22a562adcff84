-- ===== src/Lodging/Gate.antt =====
-- `waitForActionGate`, `executeActionPlan`, `executeCheckoutPlan` and `finishCheckin` of
-- internal/app/steps/lodging_step/run_lodging.go.
use kenshu_elaris_project_gu.Prelude.{
  List, Option, [], if◌then◌else◌, none, not, some, ℕ, ◌&&◌, ◌∷◌,
}
use kenshu_elaris_project_gu.Domain.{Period}
use kenshu_elaris_project_gu.GoText.{Text}
use kenshu_elaris_project_gu.GoTime.{Instant, add_days, at_hour, start_of_utc_day}
use kenshu_elaris_project_gu.Lodging.Chat.{
  Act, Chat, GuestResponse, Message, expect_notification, expect_request, reply, return,
  returned_cottage_key, send_action, shown_booking_number, shown_document, wait_until, ◌>>=◌, ◌>>◌,
}
use kenshu_elaris_project_gu.Lodging.Plan.{
  ActionPlanStep, LodgingFlow, SystemNotification, SystemRequest, booking_checking,
  check_in_complete, eq_notification, eq_request, no_notification, no_request, request_cottage_key,
}
use kenshu_elaris_project_gu.World.{chat_failed, err, ok, request_is_nil}

-- `target`: the hour of the day of the step
unfoldable pub target_of : Period → ActionPlanStep → ℕ → Instant
target_of p step h = at_hour (add_days (start_of_utc_day p.start) step.day_offset) h

abbrev pub wait_for_hour : Period → ActionPlanStep → Option ℕ → Act (Unit {0})
wait_for_hour p step none = return tt
wait_for_hour p step (some h) = wait_until (target_of p step h)

abbrev pub wait_for_notification_of : SystemNotification → Act (Unit {0})
wait_for_notification_of n =
    if eq_notification n no_notification then return tt else expect_notification n

abbrev pub wait_for_request_of : SystemRequest → Act (Option Message)
wait_for_request_of r =
    if eq_request r no_request then return none else expect_request r >>= λ m. return (some m)

-- `waitForActionGate`; none is the nil message
unfoldable pub wait_for_action_gate : Period → ActionPlanStep → Act (Option Message)
wait_for_action_gate p step = do
  wait_for_hour p step step.gate.not_before_hour
  wait_for_notification_of step.gate.system_notification
  wait_for_request_of step.gate.system_request

-- `executeActionPlan`
unfoldable pub execute_action_plan : Period → List ActionPlanStep → Act (Unit {0})
execute_action_plan p [] = return tt
execute_action_plan p (step ∷ plan) = do
  _ ← wait_for_action_gate p step
  send_action step.action
  wait_for_notification_of step.gate.wait_for_notification
  execute_action_plan p plan

-- `client.Reply`, which fails on a nil message
abbrev pub reply_to : Option Message → GuestResponse → Act (Unit {0})
reply_to none r c = (err request_is_nil, c)
reply_to (some m) r c = reply m r c

-- The reply of a checkout step that asked for the key.
abbrev pub return_key : SystemRequest → Text → Option Message → Act (Unit {0})
return_key r key_id msg =
    if eq_request r request_cottage_key
    then reply_to msg (returned_cottage_key key_id)
    else return tt

-- `executeCheckoutPlan`
unfoldable pub execute_checkout_plan : Text → Period → List ActionPlanStep → Act (Unit {0})
execute_checkout_plan key_id p [] = return tt
execute_checkout_plan key_id p (step ∷ plan) = do
  msg ← wait_for_action_gate p step
  return_key step.gate.system_request key_id msg
  send_action step.action
  wait_for_notification_of step.gate.wait_for_notification
  execute_checkout_plan key_id p plan

-- What `finishCheckin` answers to a message, if it answers.
unfoldable pub answer_to : LodgingFlow → Text → Text → Message → Option GuestResponse
answer_to flow document_id booking_id m =
    if not (eq_request flow.show_document_request no_request)
      && eq_request m.request flow.show_document_request
    then some (shown_document document_id)
    else if not (eq_request flow.show_booking_number_request no_request)
        && eq_request m.request flow.show_booking_number_request
    then some (shown_booking_number booking_id)
    else none

abbrev pub answer : Message → Option GuestResponse → Act (Unit {0})
answer m none = return tt
answer m (some r) = reply m r

-- The loop of `finishCheckin` over the messages that arrive.
unfoldable pub checkin_from : LodgingFlow → Text → Text → List Message → Act (Unit {0})
checkin_from flow document_id booking_id [] c = (err chat_failed, record c { inbox = [] })
checkin_from flow document_id booking_id (m ∷ ms) c =
    let c1 : Chat = record c { inbox = ms } in
    let rest = checkin_from flow document_id booking_id ms in
    if eq_notification m.notification booking_checking
    then rest c1
    else if eq_notification m.notification check_in_complete
    then (ok tt, c1)
    else (answer m (answer_to flow document_id booking_id m) >> rest) c1

-- `finishCheckin`
unfoldable pub finish_checkin : LodgingFlow → Text → Text → Act (Unit {0})
finish_checkin flow document_id booking_id c = checkin_from flow document_id booking_id c.inbox c
