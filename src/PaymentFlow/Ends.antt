-- ===== src/PaymentFlow/Ends.antt =====
-- On the payment flow: its rounds.
use kenshu_elaris_project_gu.PaymentFlow
use kenshu_elaris_project_gu.Prelude.{arith, none, ℕ, ◌<◌, ◌≢◌}
use kenshu_elaris_project_gu.Flow.{run_step_graph}
use kenshu_elaris_project_gu.Flow.Ends.{Lists, run-ends}
use kenshu_elaris_project_gu.PaymentFlow.{
  PaymentStep, default_payment_flow, new_payment_flow, pay_invoice, payment_end,
}
use kenshu_elaris_project_gu.Wiring.{Wiring}
use kenshu_elaris_project_gu.World.{Env, World}

-- How many transitions a step has before it.
abbrev rank : PaymentStep → ℕ
rank pay_invoice = 1
rank payment_end = 0

lower :
    {P : Type 0} (env : Env P) (d : Wiring) (s : PaymentStep)
    → Lists (λ t. rank t < rank s) ((new_payment_flow env d).next s)
unfolding new_payment_flow PaymentFlow.state_map default_payment_flow
lower env d pay_invoice = (omega arith, tt)
lower env d payment_end = tt

-- A payment flow from its start ends within two rounds, whatever the services answer.
pub payment-run-ends :
    {P : Type 0} (env : Env P) (d : Wiring) (w : World P)
    → run_step_graph env (new_payment_flow env d) 2 pay_invoice w ≢ none
payment-run-ends env d w =
    run-ends env (new_payment_flow env d) rank 2 pay_invoice w (lower env d) (omega arith)
