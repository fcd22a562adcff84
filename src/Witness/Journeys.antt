-- ===== src/Witness/Journeys.antt =====
-- The theorems on a whole journey, at one that runs from the making of its guest to its cleanup.
use kenshu_elaris_project_gu.Lodging.Stay
use kenshu_elaris_project_gu.Lodging.Enter
use kenshu_elaris_project_gu.PayInvoice
use kenshu_elaris_project_gu.PaymentFlow
use kenshu_elaris_project_gu.BookCottage
use kenshu_elaris_project_gu.SelectPeriod
use kenshu_elaris_project_gu.SelectCottage
use kenshu_elaris_project_gu.ListCottages
use kenshu_elaris_project_gu.BookingFlow
use kenshu_elaris_project_gu.RetrieveGuest
use kenshu_elaris_project_gu.RegisterGuest
use kenshu_elaris_project_gu.RegisterFlow
use kenshu_elaris_project_gu.Prelude.{
  Option, [], false, none, pos, refl, some, true, ◌+◌, ◌∷◌, ◌≡◌, ◌≤◌, ◌⊎◌,
}
use kenshu_elaris_project_gu.BookCottage.{book, booking_request, with_booking_id}
use kenshu_elaris_project_gu.BookingFlow.{default_booking_flow, new_booking_flow, start}
use kenshu_elaris_project_gu.BookingFlow.Once.{bookings_sent}
use kenshu_elaris_project_gu.Bus.{new_bus}
use kenshu_elaris_project_gu.Cache.{del, ensure_key, erase, get, insert, load, lookup, save, set}
use kenshu_elaris_project_gu.CreateGuest.{create_guest, fake_guest, split_blanks, validate_booking}
use kenshu_elaris_project_gu.Domain.{GuestJourneyCacheValue}
use kenshu_elaris_project_gu.Flow.{draw, run_step_graph, transition, visit}
use kenshu_elaris_project_gu.GoText.{equal_fold, text, text_eq, text_lt, trim_space}
use kenshu_elaris_project_gu.GoTime.{at_hour, start_of_utc_day, sub_time}
use kenshu_elaris_project_gu.GuestJourney.{
  Arrivals, Ended, Journey, Surroundings, book_and_pay, cleanup_stage, journey_body, lodging_stage,
  setup_stage, start_journey, ◌>>◌,
}
use kenshu_elaris_project_gu.GuestJourney.Leaves.{Left, start_journey-Left}
use kenshu_elaris_project_gu.GuestJourney.Rules.{AtJourneyEnd}
use kenshu_elaris_project_gu.GuestJourney.Sends.{start_journey_books_and_pays_once}
use kenshu_elaris_project_gu.JourneyCache.{
  cleanup_guest_journey, close_communication, delete_state_cache, initialize_state_cache,
  log_state_cache, sync_state_cache,
}
use kenshu_elaris_project_gu.Lodging.Chat.{
  Chat, Message, await, expect_notification, expect_request, first_event, reply, search_inbox,
  send_action, wait_end, wait_until,
}
use kenshu_elaris_project_gu.Lodging.Enter.{load_cache}
use kenshu_elaris_project_gu.Lodging.Gate.{
  answer_to, checkin_from, execute_action_plan, execute_checkout_plan, finish_checkin, target_of,
  wait_for_action_gate,
}
use kenshu_elaris_project_gu.Lodging.Plan.{
  SystemNotification, SystemRequest, breakfast_ready, build_checkout_action_plan,
  build_stay_action_plan, check_in_complete, check_out_complete, checkout_day_offset,
  default_lodging_flow, dinner_ready, expand_plan, full_stay_days, give_cottage_key, nights_of,
  no_notification, no_request, recurring, request_booking_number, request_cottage_key,
  request_document,
}
use kenshu_elaris_project_gu.Lodging.Stay.{run_stay, settle_in, stay_with_client}
use kenshu_elaris_project_gu.LodgingRun.{run_lodging_graph, run_lodging_stay_flow}
use kenshu_elaris_project_gu.PayInvoice.{card, pay, settle, with_receipt}
use kenshu_elaris_project_gu.PaymentFlow.{default_payment_flow, new_payment_flow}
use kenshu_elaris_project_gu.PaymentFlow.Once.{payments_sent}
use kenshu_elaris_project_gu.RegisterFlow.{default_guest_register_flow, new_guest_register_flow}
use kenshu_elaris_project_gu.SelectPeriod.{
  choose, collect_cottages, collect_stay_candidates, collect_windows, first_suitable,
  load_available_periods, offered,
}
use kenshu_elaris_project_gu.SelectPeriod.Nearest.{consider, pick_nearest_suitable_period, scan}
use kenshu_elaris_project_gu.SelectPeriod.Ranking.{
  insert_stable, less, same_key, sort_stable, unique_stay_candidates,
}
use kenshu_elaris_project_gu.Selector.{pick_random_weighted, total_from, walk}
use kenshu_elaris_project_gu.SetupCommunication.{
  binding_config, open_line, queue_config, setup_communication, setup_fault,
}
use kenshu_elaris_project_gu.SetupCommunication.Opened.{GivenUp, Opened, setup_communication-Opened}
use kenshu_elaris_project_gu.Waits.{
  match_booking_confirmation, match_checkin_today, match_payment_request, wait, with_invoice,
}
use kenshu_elaris_project_gu.Witness.Data.{all_set, days, invoiced_value, services, world_with}
use kenshu_elaris_project_gu.World.{Env, Outcome, ok}

-- Draws of 0.57, which book at once.
abbrev resolute : Env GuestJourneyCacheValue
resolute = record services { rand_float = λ _. 4_603_309_323_120_478_781 }

abbrev asks : SystemRequest → Message
asks r = record { correlation_id = text "c"; notification = no_notification; request = r }

abbrev notice : SystemNotification → Message
notice n = record { correlation_id = text "c"; notification = n; request = no_request }

abbrev chat : Chat
chat = record {
  inbox =
      asks request_document
      ∷ asks request_booking_number
      ∷ notice check_in_complete
      ∷ asks give_cottage_key
      ∷ notice dinner_ready
      ∷ notice breakfast_ready
      ∷ notice dinner_ready
      ∷ notice breakfast_ready
      ∷ asks request_cottage_key
      ∷ notice check_out_complete
      ∷ [];
  sends = λ _. true;
  sent = 0;
  current = λ _. some (days 120 121).start;
  events = λ _. [];
  waits = 0;
  log = [];
}

abbrev arriving : {M : Type 0} → M → Arrivals M
arriving m = record { kept = m ∷ []; rounds = [] }

abbrev around : Surroundings
around = record {
  lower = λ s. s;
  fold = λ c. c;
  fake = record { name = text "Ada King"; ssn = text "123-45-6789"; address = text "1 Main St" };
  consumer = record {
    consumer_set = true;
    bus_set = true;
    declares = λ _. true;
    binds = λ _. true;
    consumes = true;
  };
  communication_cfg = record {
    queue = record {
      name = [];
      durable = true;
      auto_delete = false;
      exclusive = false;
      no_wait = false;
    };
    binding = record { exchange_name = []; routing_key = []; no_wait = false };
  };
  booking_fuel = 6;
  payment_requests = arriving (record {
    invoice_number = text "INV-2";
    total = some (record { amount = pos 100; currency = text "EUR" });
    cottage_name = some (text "Pine");
    payer_email = some (text "Ada.King@test.com");
  });
  booking_confirmations =
      arriving (record { booking_id = text "b1"; confirmed = true; guest_id = some (text "g1") });
  checkin_todays = arriving (record {
    booking_id = text "b1";
    guest_id = text "g1";
    cottage_name = text "Pine";
    check_in = some (days 106 107).start;
  });
  stay = record {
    step_set = true;
    chat_url = text "ws";
    itinerary = default_lodging_flow;
    dialed = true;
    key_id = text "k";
  };
  can_close = λ _. true;
}

abbrev fresh : Journey GuestJourneyCacheValue
fresh = record {
  world = record {
    calls = 0;
    state = record {
      guest = none;
      guest_id = [];
      cottage_names = none;
      redis_key = [];
      queue_name = [];
      routing_key = [];
    };
    store = [];
    sent = [];
  };
  line = record { calls = []; listening = false; bus = new_bus };
  chat = chat;
  cleanups = 0;
}

start_journey-Left_example : AtJourneyEnd Left (start_journey resolute all_set around fresh)
start_journey-Left_example = start_journey-Left resolute all_set around fresh

start_journey_books_and_pays_once_example :
    AtJourneyEnd
      (λ _ j'.
        (bookings_sent j'.world.sent ≤ bookings_sent fresh.world.sent + 1)
        × (payments_sent j'.world.sent ≤ payments_sent fresh.world.sent + 1))
      (start_journey resolute all_set around fresh)
start_journey_books_and_pays_once_example =
    start_journey_books_and_pays_once resolute all_set around fresh

setup_communication-Opened_example :
    Opened around.consumer around.communication_cfg (world_with invoiced_value).state fresh.line (
      setup_communication around.consumer around.communication_cfg all_set
        (world_with invoiced_value).state
        fresh.line)
    ⊎ GivenUp fresh.line (
        setup_communication around.consumer around.communication_cfg all_set
          (world_with invoiced_value).state
          fresh.line)
setup_communication-Opened_example =
    setup_communication-Opened around.consumer around.communication_cfg all_set
      (world_with invoiced_value).state fresh.line

abbrev outcome_of : Ended GuestJourneyCacheValue → Option (Outcome (Unit {0}))
outcome_of none = none
outcome_of (some (o, j)) = some o

-- The whole journey succeeds.
whole_journey_runs : outcome_of (start_journey resolute all_set around fresh) ≡ some (ok tt)
unfolding start_journey journey_body book_and_pay setup_stage lodging_stage cleanup_stage ◌>>◌
    create_guest fake_guest split_blanks initialize_state_cache validate_booking sync_state_cache
    cleanup_guest_journey log_state_cache delete_state_cache close_communication load save get set
    del ensure_key lookup insert erase text_eq trim_space equal_fold text_lt run_step_graph visit
    transition draw pick_random_weighted walk total_from new_guest_register_flow
    RegisterFlow.state_map RegisterFlow.validate_step RegisterFlow.execute_step
    default_guest_register_flow RegisterGuest.validate RegisterGuest.execute RetrieveGuest.validate
    RetrieveGuest.execute new_booking_flow BookingFlow.state_map BookingFlow.validate_step
    BookingFlow.execute_step default_booking_flow ListCottages.validate ListCottages.execute
    SelectCottage.validate SelectCottage.execute SelectPeriod.validate SelectPeriod.execute
    BookCottage.validate BookCottage.execute BookCottage.book BookCottage.booking_request
    BookCottage.with_booking_id SelectPeriod.collect_stay_candidates SelectPeriod.collect_cottages
    SelectPeriod.collect_windows SelectPeriod.load_available_periods SelectPeriod.first_suitable
    SelectPeriod.offered SelectPeriod.choose pick_nearest_suitable_period scan consider
    start_of_utc_day sub_time sort_stable insert_stable less unique_stay_candidates same_key
    new_payment_flow PaymentFlow.state_map PaymentFlow.validate_step PaymentFlow.execute_step
    default_payment_flow PayInvoice.execute PayInvoice.validate PayInvoice.settle PayInvoice.pay
    PayInvoice.card PayInvoice.with_receipt setup_communication setup_fault open_line queue_config
    binding_config wait match_payment_request match_booking_confirmation match_checkin_today
    with_invoice run_lodging_stay_flow run_lodging_graph Enter.validate load_cache Stay.execute
    stay_with_client run_stay settle_in finish_checkin checkin_from answer_to execute_action_plan
    execute_checkout_plan wait_for_action_gate target_of wait_until wait_end first_event send_action
    reply search_inbox await expect_notification expect_request expand_plan build_stay_action_plan
    build_checkout_action_plan recurring full_stay_days default_lodging_flow at_hour nights_of
    checkout_day_offset
whole_journey_runs = refl
