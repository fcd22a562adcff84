-- ===== src/BookingFlow.antt =====
-- internal/config/booking_flow.go and internal/app/flows/booking_flow.go: the graph of the booking flow. The steps of
-- a flow are distinct pointers, here distinct constructors.
pub mod Quiet
pub mod Sends
pub mod Once
pub mod Path
pub mod Returns
pub mod Panics
use kenshu_elaris_project_gu.ListCottages
use kenshu_elaris_project_gu.SelectCottage
use kenshu_elaris_project_gu.SelectPeriod
use kenshu_elaris_project_gu.BookCottage
use kenshu_elaris_project_gu.Prelude.{List, Option, [], none, some, ◌∷◌}
use kenshu_elaris_project_gu.Flow.{Graph}
use kenshu_elaris_project_gu.GoFloat.{
  Float64, float_0_05, float_0_10, float_0_20, float_0_30, float_0_40, float_0_60, float_0_80,
  float_1,
}
use kenshu_elaris_project_gu.Selector.{WeightedTuple}
use kenshu_elaris_project_gu.Wiring.{Wiring}
use kenshu_elaris_project_gu.World.{Action, Env, pure}

pub data BookingStep : Type 0 where
  list_cottages select_cottage select_period book_cottage end : BookingStep

pub record BookingTransitions : Type 0 where
  pub list_cottages_transitions : List (WeightedTuple BookingStep)
  pub select_cottage_transitions : List (WeightedTuple BookingStep)
  pub select_period_transitions : List (WeightedTuple BookingStep)
  pub book_cottage_transitions : List (WeightedTuple BookingStep)

-- `{Value: step, Weight: weight}`
abbrev pub to : BookingStep → Float64 → WeightedTuple BookingStep
to step weight = record { value = step; weight = weight }

-- `DefaultBookingFlow`; its `Start` is `list_cottages`
unfoldable pub default_booking_flow : BookingTransitions
default_booking_flow = record {
  list_cottages_transitions = to select_cottage float_0_80 ∷ to end float_0_20 ∷ [];
  select_cottage_transitions =
      to select_period float_0_60 ∷ to list_cottages float_0_30 ∷ to end float_0_10 ∷ [];
  select_period_transitions =
      to select_period float_0_30
      ∷ to select_cottage float_0_20
      ∷ to list_cottages float_0_05
      ∷ to book_cottage float_0_40
      ∷ to end float_0_05
      ∷ [];
  book_cottage_transitions = to end float_1 ∷ [];
}

abbrev pub start : BookingStep
start = list_cottages

-- `BookingFlow.StateMap`
unfoldable pub state_map :
    BookingTransitions → BookingStep → Option (List (WeightedTuple BookingStep))
state_map f list_cottages = some f.list_cottages_transitions
state_map f select_cottage = some f.select_cottage_transitions
state_map f select_period = some f.select_period_transitions
state_map f book_cottage = some f.book_cottage_transitions
state_map f end = none

-- What `NewBookingFlow` puts into the flow.
module _ {P : Type 0} (env : Env P) (d : Wiring) where
  unfoldable pub validate_step : BookingStep → Action P (Unit {0})
  validate_step list_cottages = ListCottages.validate d
  validate_step select_cottage = SelectCottage.validate d
  validate_step select_period = SelectPeriod.validate d
  validate_step book_cottage = BookCottage.validate d
  validate_step end = pure tt

  -- The end step only logs.
  unfoldable pub execute_step : BookingStep → Action P (Unit {0})
  execute_step list_cottages = ListCottages.execute env
  execute_step select_cottage = SelectCottage.execute env
  execute_step select_period = SelectPeriod.execute env
  execute_step book_cottage = BookCottage.execute env
  execute_step end = pure tt

  unfoldable pub new_booking_flow : Graph P BookingStep
  new_booking_flow = record {
    validate = validate_step;
    execute = execute_step;
    next = state_map default_booking_flow;
  }
