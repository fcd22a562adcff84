-- ===== src/GuestJourney.antt =====
-- internal/app/journey/guest_journey.go: a journey from the making of its guest to its cleanup. Its stages
-- are those of the other files; what arrives from the bus and the chat meanwhile is a parameter.
pub mod Silent
pub mod Rules
pub mod Sends
pub mod Leaves
use kenshu_elaris_project_gu.Prelude.{
  Bool, List, Option, if◌then◌else◌, none, not, some, suc, ℕ, ◌&&◌, ◌||◌,
}
use kenshu_elaris_project_gu.BookingFlow.{new_booking_flow, start}
use kenshu_elaris_project_gu.Bus.{GuestBus, new_bus}
use kenshu_elaris_project_gu.Bus.Messages.{BookingConfirmed, CheckinToday, PaymentRequest}
use kenshu_elaris_project_gu.CreateGuest.{Fake, create_guest, validate_booking}
use kenshu_elaris_project_gu.Flow.{Finish, run_step_graph}
use kenshu_elaris_project_gu.GoText.{Text}
use kenshu_elaris_project_gu.JourneyCache.{cleanup_guest_journey, sync_state_cache}
use kenshu_elaris_project_gu.Lodging.Chat.{Chat}
use kenshu_elaris_project_gu.LodgingRun.{LodgingStay, run_lodging_stay_flow}
use kenshu_elaris_project_gu.PaymentFlow.{new_payment_flow, pay_invoice}
use kenshu_elaris_project_gu.RegisterFlow.{new_guest_register_flow, register_guest}
use kenshu_elaris_project_gu.SetupCommunication.{
  Consumer, Line, RabbitMqConsumerConfig, setup_communication,
}
use kenshu_elaris_project_gu.Waits.{
  Round, Waited, wait_booking_confirmation, wait_checkin_today, wait_payment_request,
}
use kenshu_elaris_project_gu.Wiring.{Wiring}
use kenshu_elaris_project_gu.World.{
  Action, Env, Error, Outcome, World, err, invalid_dependencies, joined, ok, panics,
}

-- The pointers that `NewGuestJourney` tests.
pub record JourneyParts : Type 0 where
  pub state_set : Bool
  pub guest_register_flow_set : Bool
  pub booking_flow_set : Bool
  pub payment_flow_set : Bool
  pub lodging_flow_set : Bool
  pub rabbit_consumer_set : Bool
  pub cache_set : Bool

-- `NewGuestJourney`; the journey is built with a bus of its own.
unfoldable pub new_guest_journey : JourneyParts → Outcome GuestBus
new_guest_journey p =
    if not p.state_set
      || not p.guest_register_flow_set
      || not p.booking_flow_set
      || not p.payment_flow_set
      || not p.lodging_flow_set
      || not p.rabbit_consumer_set
      || not p.cache_set
    then err invalid_dependencies
    else ok new_bus

-- What a journey changes: the world, its line to the message queue and the chat. `cleanups` counts
-- the runs of the cleanup.
pub record Journey (P : Type 0) : Type 0 where
  pub world : World P
  pub line : Line
  pub chat : Chat
  pub cleanups : ℕ

-- How a journey ends; none stands for fuel that ran out.
abbrev pub Ended : Type 0 → Type 0
Ended P = Option (Outcome (Unit {0}) × Journey P)

abbrev pub Stage : Type 0 → Type 0
Stage P = Journey P → Ended P

-- The messages of one kind that the bus has kept when the wait begins, and the rounds of the wait.
pub record Arrivals (M : Type 0) : Type 0 where
  pub kept : List M
  pub rounds : List (Round M)

-- What a journey is given from outside.
pub record Surroundings : Type 0 where
  pub lower : Text → Text
  pub fold : ℕ → ℕ
  pub fake : Fake
  pub consumer : Consumer
  pub communication_cfg : RabbitMqConsumerConfig
  pub booking_fuel : ℕ
  pub payment_requests : Arrivals PaymentRequest
  pub booking_confirmations : Arrivals BookingConfirmed
  pub checkin_todays : Arrivals CheckinToday
  pub stay : LodgingStay
  pub can_close : ℕ → Bool  -- whether the n-th cleanup can close the channel

module _ {P : Type 0} where
  abbrev pub go_on : Ended P → Stage P → Ended P
  go_on none more = none
  go_on (some (ok u, j)) more = more j
  go_on (some (err e, j)) more = some (err e, j)
  go_on (some (panics, j)) more = some (panics, j)

  -- `if err := stage(); err != nil { return err }`
  infixl 10 ◌>>◌
  unfoldable pub ◌>>◌ : Stage P → Stage P → Stage P
  ◌>>◌ m n j = go_on (m j) n

  abbrev pub act : Action P (Unit {0}) → Stage P
  act a j = some ((a j.world).0, record j { world = (a j.world).1 })

  abbrev pub flowed : Finish P → Journey P → Ended P
  flowed none j = none
  flowed (some (o, w)) j = some (o, record j { world = w })

  -- `flow.Start`
  abbrev pub flow : (World P → Finish P) → Stage P
  flow f j = flowed (f j.world) j

  abbrev pub wait_for :
      {M : Type 0} → (List (Round M) → List M → World P → Waited P M) → Arrivals M → Stage P
  wait_for waits a j =
      let r = waits a.rounds a.kept j.world in some (r.0.0, record j { world = r.0.1 })

module _ {P : Type 0} (env : Env P) (d : Wiring) (around : Surroundings) where
  -- `setupCommunication`
  unfoldable pub setup_stage : Stage P
  setup_stage j =
      let r = setup_communication around.consumer around.communication_cfg d j.world.state j.line in
      some (r.0.0, record j { world = record (j.world) { state = r.0.1 }; line = r.1 })

  unfoldable pub lodging_stage : Stage P
  lodging_stage j =
      let r = run_lodging_stay_flow env d around.stay j.world j.chat in
      some (r.0.0, record j { world = r.1; chat = r.0.1 })

  -- The journey that a cleanup leaves: it counts, and a line that was closed has a bus without
  -- messages.
  abbrev pub cleaned : Journey P → (Outcome (Unit {0}) × World P) × Bool → Journey P
  cleaned j r = record j {
    world = r.0.1;
    line = record (j.line) {
      listening = r.1;
      bus = if j.line.listening && not r.1 then new_bus else j.line.bus;
    };
    cleanups = suc j.cleanups;
  }

  -- `cleanupGuestJourney`
  unfoldable pub cleanup_stage : Stage P
  cleanup_stage j =
      let r = cleanup_guest_journey env d (around.can_close j.cleanups) j.line.listening j.world in
      some (r.0.0, cleaned j r)

  -- The stages between the register flow and the lodging, each waiting for what the next needs.
  unfoldable pub book_and_pay : Stage P
  book_and_pay = do
    flow (run_step_graph env (new_booking_flow env d) around.booking_fuel start)
    act (validate_booking env)
    act (sync_state_cache env d)
    wait_for (wait_payment_request env around.fold) around.payment_requests
    flow (run_step_graph env (new_payment_flow env d) 2 pay_invoice)
    act (sync_state_cache env d)
    wait_for (wait_booking_confirmation env) around.booking_confirmations

  -- `Start` up to its deferred function.
  unfoldable pub journey_body : Stage P
  journey_body = do
    act (create_guest env around.lower around.fake d)
    flow (run_step_graph env (new_guest_register_flow env d) 3 register_guest)
    setup_stage
    book_and_pay
    wait_for (wait_checkin_today env) around.checkin_todays
    lodging_stage
    cleanup_stage

  abbrev pub join_cleanup : Error → Ended P → Ended P
  join_cleanup e none = none
  join_cleanup e (some (ok u, j)) = some (err e, j)
  join_cleanup e (some (err c, j)) = some (err (joined e c), j)
  join_cleanup e (some (panics, j)) = some (panics, j)

  -- The deferred function of `Start`: behind an error the cleanup runs, and its error is joined.
  abbrev pub deferred : Ended P → Ended P
  deferred none = none
  deferred (some (ok u, j)) = some (ok u, j)
  deferred (some (err e, j)) = join_cleanup e (cleanup_stage j)
  deferred (some (panics, j)) = some (panics, j)

  -- `GuestJourney.Start`
  unfoldable pub start_journey : Stage P
  start_journey j = deferred (journey_body j)
