-- ===== src/Lodging/Plan.antt =====
-- internal/config/lodging_flow.go, and the plans that internal/app/steps/lodging_step/run_lodging.go makes of it.
pub mod Days
use kenshu_elaris_project_gu.Prelude.{
  Bool, List, Option, [], false, if◌then◌else◌, leb, none, pos_part, quot_ℤ, some, suc, true, zero,
  ℕ, ◌++◌, ◌-◌, ◌==◌, ◌∷◌,
}
use kenshu_elaris_project_gu.BookingFlow.{end, start}
use kenshu_elaris_project_gu.Domain.{Period}
use kenshu_elaris_project_gu.GoTime.{day_ns, start_of_utc_day, sub_time}

-- The enumerations of internal/domain/dto/lodging, each with its zero value first.
pub data GuestAction : Type 0 where
  no_action show_for_checkin show_document show_booking_number : GuestAction
  enter_cottage leave_cottage go_for_a_bath return_from_bath : GuestAction
  go_for_dinner go_for_breakfast go_to_sleep wakeup : GuestAction
  leave_cleanup_notification enjoy_resort proceed_to_checkout : GuestAction
  return_cottage_key take_cottage_key : GuestAction

pub data SystemNotification : Type 0 where
  no_notification booking_checking check_in_complete dinner_ready : SystemNotification
  prepare_cottage_to_sleep breakfast_ready check_out_tomorrow : SystemNotification
  check_out_complete check_out_today : SystemNotification

pub data SystemRequest : Type 0 where
  no_request request_document request_booking_number : SystemRequest
  give_cottage_key request_cottage_key : SystemRequest

-- `==` on the enumerations
abbrev notification_number : SystemNotification → ℕ
notification_number no_notification = 0
notification_number booking_checking = 1
notification_number check_in_complete = 2
notification_number dinner_ready = 3
notification_number prepare_cottage_to_sleep = 4
notification_number breakfast_ready = 5
notification_number check_out_tomorrow = 6
notification_number check_out_complete = 7
notification_number check_out_today = 8

abbrev request_number : SystemRequest → ℕ
request_number no_request = 0
request_number request_document = 1
request_number request_booking_number = 2
request_number give_cottage_key = 3
request_number request_cottage_key = 4

abbrev pub eq_notification : SystemNotification → SystemNotification → Bool
eq_notification a b = notification_number a == notification_number b

abbrev pub eq_request : SystemRequest → SystemRequest → Bool
eq_request a b = request_number a == request_number b

-- `HasNotBeforeHour` and `NotBeforeHour` are one optional hour.
pub record LodgingActionGate : Type 0 where
  pub not_before_hour : Option ℕ
  pub system_notification : SystemNotification
  pub system_request : SystemRequest
  pub wait_for_notification : SystemNotification

pub record LodgingPlannedAction : Type 0 where
  pub action : GuestAction
  pub gate : LodgingActionGate

-- `LodgingFlow`, with the fields of its `Checkin`
pub record LodgingFlow : Type 0 where
  pub show_up : List LodgingPlannedAction
  pub show_document_request : SystemRequest
  pub show_booking_number_request : SystemRequest
  pub first_day_stay : List LodgingPlannedAction
  pub recurring_stay : List LodgingPlannedAction
  pub checkout : List LodgingPlannedAction

abbrev pub is_empty_plan : List LodgingPlannedAction → Bool
is_empty_plan [] = true
is_empty_plan (_ ∷ _) = false

abbrev pub no_gate : LodgingActionGate
no_gate = record {
  not_before_hour = none;
  system_notification = no_notification;
  system_request = no_request;
  wait_for_notification = no_notification;
}

abbrev pub from_hour : ℕ → SystemNotification → LodgingActionGate
from_hour h n = record no_gate { not_before_hour = some h; system_notification = n }

abbrev pub planned : GuestAction → LodgingActionGate → LodgingPlannedAction
planned a g = record { action = a; gate = g }

-- `DefaultLodgingFlow`
unfoldable pub default_lodging_flow : LodgingFlow
default_lodging_flow = record {
  show_up = planned show_for_checkin (from_hour 15 no_notification) ∷ [];
  show_document_request = request_document;
  show_booking_number_request = request_booking_number;
  first_day_stay =
      planned enter_cottage no_gate
      ∷ planned go_for_a_bath (from_hour 16 no_notification)
      ∷ planned go_for_dinner (from_hour 18 dinner_ready)
      ∷ planned go_to_sleep (from_hour 22 no_notification)
      ∷ [];
  recurring_stay =
      planned wakeup (from_hour 7 no_notification)
      ∷ planned go_for_breakfast (from_hour 8 breakfast_ready)
      ∷ planned leave_cleanup_notification (from_hour 10 no_notification)
      ∷ planned enjoy_resort (from_hour 11 no_notification)
      ∷ planned go_for_a_bath (from_hour 16 no_notification)
      ∷ planned go_for_dinner (from_hour 18 dinner_ready)
      ∷ planned go_to_sleep (from_hour 22 no_notification)
      ∷ [];
  checkout =
      planned wakeup (from_hour 7 no_notification)
      ∷ planned leave_cottage (from_hour 9 no_notification)
      ∷ planned proceed_to_checkout no_gate
      ∷ planned return_cottage_key (record no_gate {
        system_request = request_cottage_key;
        wait_for_notification = check_out_complete;
      })
      ∷ [];
}

pub record ActionPlanStep : Type 0 where
  pub day_offset : ℕ
  pub action : GuestAction
  pub gate : LodgingActionGate

-- `expandPlan`
unfoldable pub expand_plan : ℕ → List LodgingPlannedAction → List ActionPlanStep
expand_plan offset [] = []
expand_plan offset (a ∷ actions) =
    record { day_offset = offset; action = a.action; gate = a.gate } ∷ expand_plan offset actions

-- `int(checkOut.Sub(checkIn) / (24 * time.Hour))`; a negative quotient is cut to 0, as the two
-- functions below do.
unfoldable pub nights_of : Period → ℕ
nights_of p =
    pos_part (quot_ℤ (sub_time (start_of_utc_day p.end) (start_of_utc_day p.start)) day_ns)

-- `fullStayDays`
unfoldable pub full_stay_days : Period → ℕ
full_stay_days p = if leb (nights_of p) 1 then 0 else nights_of p - 1

-- `checkoutDayOffset`
unfoldable pub checkout_day_offset : Period → ℕ
checkout_day_offset p = nights_of p

-- The rounds of `for offset := 2; offset <= days; offset++` from an offset, `count` of them.
unfoldable pub recurring : List LodgingPlannedAction → ℕ → ℕ → List ActionPlanStep
recurring actions zero offset = []
recurring actions (suc count) offset =
    expand_plan offset actions ++ recurring actions count (suc offset)

-- `buildStayActionPlan`
unfoldable pub build_stay_action_plan : LodgingFlow → Period → List ActionPlanStep
unfolding recurring
build_stay_action_plan flow p =
    expand_plan 0 flow.first_day_stay ++ recurring flow.recurring_stay (full_stay_days p - 1) 2

-- `buildCheckoutActionPlan`
unfoldable pub build_checkout_action_plan : LodgingFlow → Period → List ActionPlanStep
build_checkout_action_plan flow p = expand_plan (checkout_day_offset p) flow.checkout
