-- ===== src/PaymentFlow.antt =====
-- internal/config/payment_flow.go and internal/app/flows/payment_flow.go: the guest pays, and the flow ends.
pub mod Ends
pub mod Once
use kenshu_elaris_project_gu.PayInvoice
use kenshu_elaris_project_gu.Prelude.{List, Option, [], none, some, ◌∷◌}
use kenshu_elaris_project_gu.Flow.{Graph}
use kenshu_elaris_project_gu.GoFloat.{float_1}
use kenshu_elaris_project_gu.Selector.{WeightedTuple}
use kenshu_elaris_project_gu.Wiring.{Wiring}
use kenshu_elaris_project_gu.World.{Action, Env, pure}

pub data PaymentStep : Type 0 where
  pay_invoice payment_end : PaymentStep

pub record PaymentTransitions : Type 0 where
  pub pay_invoice_transitions : List (WeightedTuple PaymentStep)

-- `DefaultPaymentFlow`; its `Start` is `pay_invoice`
unfoldable pub default_payment_flow : PaymentTransitions
default_payment_flow = record {
  pay_invoice_transitions = record { value = payment_end; weight = float_1 } ∷ [];
}

-- `PaymentFlow.StateMap`
unfoldable pub state_map :
    PaymentTransitions → PaymentStep → Option (List (WeightedTuple PaymentStep))
state_map f pay_invoice = some f.pay_invoice_transitions
state_map f payment_end = none

-- What `NewPaymentFlowWithState` puts into the flow.
module _ {P : Type 0} (env : Env P) (d : Wiring) where
  unfoldable pub validate_step : PaymentStep → Action P (Unit {0})
  validate_step pay_invoice = PayInvoice.validate d
  validate_step payment_end = pure tt

  unfoldable pub execute_step : PaymentStep → Action P (Unit {0})
  execute_step pay_invoice = PayInvoice.execute env d
  execute_step payment_end = pure tt

  unfoldable pub new_payment_flow : Graph P PaymentStep
  new_payment_flow = record {
    validate = validate_step;
    execute = execute_step;
    next = state_map default_payment_flow;
  }
