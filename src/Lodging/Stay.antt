-- ===== src/Lodging/Stay.antt =====
-- `Execute` of internal/app/steps/lodging_step/run_lodging.go.
use kenshu_elaris_project_gu.Prelude.{Bool, if◌then◌else◌, ◌∷◌}
use kenshu_elaris_project_gu.GoText.{Text}
use kenshu_elaris_project_gu.Lodging.Chat.{
  Act, Chat, closed, expect_request, receive_cottage_key, reply, send_action, ◌>>=◌, ◌>>◌,
}
use kenshu_elaris_project_gu.Lodging.Enter.{Lodger, load_cache}
use kenshu_elaris_project_gu.Lodging.Gate.{
  execute_action_plan, execute_checkout_plan, finish_checkin,
}
use kenshu_elaris_project_gu.Lodging.Plan.{
  LodgingFlow, build_checkout_action_plan, build_stay_action_plan, expand_plan, give_cottage_key,
  take_cottage_key,
}
use kenshu_elaris_project_gu.World.{Env, Outcome, World, chat_dial_failed, err, ok, panics}

-- `Execute` from the handing over of the key on.
unfoldable pub settle_in : LodgingFlow → Text → Lodger → Act (Unit {0})
settle_in flow key_id lodger = do
  msg ← expect_request give_cottage_key
  reply msg (receive_cottage_key key_id)
  send_action take_cottage_key
  execute_action_plan lodger.selected_period (build_stay_action_plan flow lodger.selected_period)
  execute_checkout_plan key_id lodger.selected_period
      (build_checkout_action_plan flow lodger.selected_period)

-- `Execute` between the dialing of the chat and its closing.
unfoldable pub run_stay : LodgingFlow → Text → Lodger → Act (Unit {0})
run_stay flow key_id lodger = do
  execute_action_plan lodger.selected_period (expand_plan 0 flow.show_up)
  finish_checkin flow lodger.personal_info.document_id lodger.booking.booking_id
  settle_in flow key_id lodger

-- Dial, live through the stay, and close the chat, whatever the outcome of the stay.
unfoldable pub stay_with_client : Bool → LodgingFlow → Text → Lodger → Act (Unit {0})
stay_with_client dialed flow key_id lodger c =
    if dialed
    then (let r = run_stay flow key_id lodger c in (r.0, record (r.1) { log = closed ∷ r.1.log }))
    else (err chat_dial_failed, c)

-- `RunLodgingStep.Execute`; `dialed` tells whether `NewClient` returned a client.
unfoldable pub execute :
    {P : Type 0}
    → Env P
    → Bool
    → LodgingFlow
    → Text
    → World P
    → Chat
    → (Outcome (Unit {0}) × Chat) × World P
execute env dialed flow key_id w c =
    let loaded = load_cache env w in
    elim (loaded.0) [
      | ok lodger ↦ (stay_with_client dialed flow key_id lodger c, loaded.1)
      | err e ↦ ((err e, c), loaded.1)
      | panics ↦ ((panics, c), loaded.1)
    ]
