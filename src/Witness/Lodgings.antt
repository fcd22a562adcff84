-- ===== src/Witness/Lodgings.antt =====
-- The theorems on lodging, at a stay of three nights.
use kenshu_elaris_project_gu.Prelude.{
  All, Any, List, [], inl, inr, none, refl, some, true, ℕ, ◌++◌, ◌↔◌, ◌∷◌, ◌≡◌, ◌⊎◌,
}
use kenshu_elaris_project_gu.Cache.{ensure_key, get, load, lookup}
use kenshu_elaris_project_gu.Domain.{GuestJourneyCacheValue}
use kenshu_elaris_project_gu.GoText.{text, text_eq}
use kenshu_elaris_project_gu.Lodging.Acts.{Follows}
use kenshu_elaris_project_gu.Lodging.Chat.{Chat, Message, reply, wait_until}
use kenshu_elaris_project_gu.Lodging.Checkin.{
  CheckedIn, finish_checkin-CheckedIn, finish_checkin_ends,
}
use kenshu_elaris_project_gu.Lodging.Enter.{Lodger, load_cache}
use kenshu_elaris_project_gu.Lodging.Follows.Whole.{execute-Follows, itinerary}
use kenshu_elaris_project_gu.Lodging.Gate.{answer_to, checkin_from, finish_checkin}
use kenshu_elaris_project_gu.Lodging.Plan.{
  SystemNotification, SystemRequest, booking_checking, breakfast_ready, build_stay_action_plan,
  check_in_complete, check_out_complete, default_lodging_flow, dinner_ready, give_cottage_key,
  no_notification, no_request, request_booking_number, request_cottage_key, request_document,
}
use kenshu_elaris_project_gu.Lodging.Plan.Days.{IsStayDay, build_stay_action_plan-IsStayDay}
use kenshu_elaris_project_gu.Lodging.Replies.{Fires, Reached, wait_until-Reached}
use kenshu_elaris_project_gu.Lodging.Stay.{execute}
use kenshu_elaris_project_gu.Witness.Data.{
  ada, days, invoiced_value, services, stay_days, world_with,
}
use kenshu_elaris_project_gu.World.{World, ok}

abbrev lodger : Lodger
lodger = record {
  personal_info = ada;
  booking = record {
    booking_id = text "b1";
    selected_cottage = text "Pine";
    selected_period = some stay_days;
  };
  selected_period = stay_days;
}

abbrev arrived : World GuestJourneyCacheValue
arrived = world_with invoiced_value

arrived-lodger : (load_cache services arrived).0 ≡ ok lodger
unfolding load_cache load get ensure_key lookup text_eq
arrived-lodger = refl

abbrev notice : SystemNotification → Message
notice n = record { correlation_id = text "c"; notification = n; request = no_request }

abbrev asks : SystemRequest → Message
asks r = record { correlation_id = text "c"; notification = no_notification; request = r }

abbrev checking_in : List Message
checking_in =
    notice booking_checking
    ∷ asks request_document
    ∷ asks request_booking_number
    ∷ notice check_in_complete
    ∷ []

-- The messages of the whole stay; the clock is always late enough.
abbrev reception : Chat
reception = record {
  inbox =
      checking_in
      ++ (asks give_cottage_key
          ∷ notice dinner_ready
          ∷ notice breakfast_ready
          ∷ notice dinner_ready
          ∷ asks request_cottage_key
          ∷ notice check_out_complete
          ∷ []);
  sends = λ _. true;
  sent = 0;
  current = λ _. some (days 120 121).start;
  events = λ _. [];
  waits = 0;
  log = [];
}

execute-Follows_example :
    Follows
      (itinerary default_lodging_flow stay_days)
      reception
      (execute services true default_lodging_flow (text "k") arrived reception).0
execute-Follows_example =
    execute-Follows services true default_lodging_flow (text "k") arrived reception lodger
      arrived-lodger

build_stay_action_plan-IsStayDay_example :
    All (IsStayDay stay_days) (build_stay_action_plan default_lodging_flow stay_days)
build_stay_action_plan-IsStayDay_example =
    build_stay_action_plan-IsStayDay default_lodging_flow stay_days

abbrev early : Chat
early = record reception {
  current = λ _. none;
  events = λ _. (days 105 106).start ∷ (days 106 107).start ∷ [];
}

wait_until-Reached_example : ((wait_until (days 106 107).start early).0 ≡ ok tt) ↔ (
    Reached (days 106 107).start (early.current early.waits)
    ⊎ Any (Fires (days 106 107).start) (early.events early.waits))
wait_until-Reached_example = wait_until-Reached (days 106 107).start early

abbrev desk : Chat
desk = record reception { inbox = checking_in }

desk_runs :
    finish_checkin default_lodging_flow (text "d") (text "b1") desk
    ≡ (ok tt, (finish_checkin default_lodging_flow (text "d") (text "b1") desk).1)
unfolding finish_checkin checkin_from answer_to default_lodging_flow reply
desk_runs = refl

finish_checkin-CheckedIn_example :
    CheckedIn default_lodging_flow
      (text "d")
      (text "b1")
      desk.inbox
      desk
      (finish_checkin default_lodging_flow (text "d") (text "b1") desk).1
finish_checkin-CheckedIn_example =
    finish_checkin-CheckedIn default_lodging_flow (text "d") (text "b1") desk
      (finish_checkin default_lodging_flow (text "d") (text "b1") desk).1 desk_runs

desk_sends : (n : ℕ) → desk.sends n ≡ true
desk_sends n = refl

finish_checkin_ends_example :
    (finish_checkin default_lodging_flow (text "d") (text "b1") desk).0 ≡ ok tt
finish_checkin_ends_example =
    finish_checkin_ends default_lodging_flow (text "d") (text "b1") desk desk_sends
      (inr (inr (inr (inl refl))))
