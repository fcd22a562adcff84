-- ===== src/RegisterFlow.antt =====
-- internal/config/guest_register_flow.go and internal/app/flows/guest_register_flow.go: a guest registers, is read
-- back, and the flow ends.
pub mod Registered
pub mod Sends
use kenshu_elaris_project_gu.RegisterGuest
use kenshu_elaris_project_gu.RetrieveGuest
use kenshu_elaris_project_gu.Prelude.{List, Option, [], none, some, ◌∷◌}
use kenshu_elaris_project_gu.Flow.{Graph}
use kenshu_elaris_project_gu.GoFloat.{float_1}
use kenshu_elaris_project_gu.Selector.{WeightedTuple}
use kenshu_elaris_project_gu.Wiring.{Wiring}
use kenshu_elaris_project_gu.World.{Action, Env, pure}

pub data RegisterStep : Type 0 where
  register_guest retrieve_guest finish : RegisterStep

pub record GuestRegisterTransitions : Type 0 where
  pub register_guest_transitions : List (WeightedTuple RegisterStep)
  pub retrieve_guest_transitions : List (WeightedTuple RegisterStep)

-- `DefaultGuestRegisterFlow`; its `Start` is `register_guest`
unfoldable pub default_guest_register_flow : GuestRegisterTransitions
default_guest_register_flow = record {
  register_guest_transitions = record { value = retrieve_guest; weight = float_1 } ∷ [];
  retrieve_guest_transitions = record { value = finish; weight = float_1 } ∷ [];
}

-- `GuestRegisterFlow.StateMap`
unfoldable pub state_map :
    GuestRegisterTransitions → RegisterStep → Option (List (WeightedTuple RegisterStep))
state_map f register_guest = some f.register_guest_transitions
state_map f retrieve_guest = some f.retrieve_guest_transitions
state_map f finish = none

-- What `NewGuestRegisterFlowWithState` puts into the flow.
module _ {P : Type 0} (env : Env P) (d : Wiring) where
  unfoldable pub validate_step : RegisterStep → Action P (Unit {0})
  validate_step register_guest = RegisterGuest.validate d
  validate_step retrieve_guest = RetrieveGuest.validate d
  validate_step finish = pure tt

  unfoldable pub execute_step : RegisterStep → Action P (Unit {0})
  execute_step register_guest = RegisterGuest.execute env
  execute_step retrieve_guest = RetrieveGuest.execute env
  execute_step finish = pure tt

  unfoldable pub new_guest_register_flow : Graph P RegisterStep
  new_guest_register_flow = record {
    validate = validate_step;
    execute = execute_step;
    next = state_map default_guest_register_flow;
  }
