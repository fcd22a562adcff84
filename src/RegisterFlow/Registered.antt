-- ===== src/RegisterFlow/Registered.antt =====
-- On the registration flow: its rounds.
use kenshu_elaris_project_gu.RegisterFlow
use kenshu_elaris_project_gu.Prelude.{arith, none, ℕ, ◌<◌, ◌≢◌}
use kenshu_elaris_project_gu.Flow.{run_step_graph}
use kenshu_elaris_project_gu.Flow.Ends.{Lists, run-ends}
use kenshu_elaris_project_gu.RegisterFlow.{
  RegisterStep, default_guest_register_flow, finish, new_guest_register_flow, register_guest,
  retrieve_guest,
}
use kenshu_elaris_project_gu.Wiring.{Wiring}
use kenshu_elaris_project_gu.World.{Env, World}

-- How many transitions a step has before it.
abbrev rank : RegisterStep → ℕ
rank register_guest = 2
rank retrieve_guest = 1
rank finish = 0

lower :
    {P : Type 0} (env : Env P) (d : Wiring) (s : RegisterStep)
    → Lists (λ t. rank t < rank s) ((new_guest_register_flow env d).next s)
unfolding new_guest_register_flow RegisterFlow.state_map default_guest_register_flow
lower env d register_guest = (omega arith, tt)
lower env d retrieve_guest = (omega arith, tt)
lower env d finish = tt

-- A registration flow from its start ends within three rounds, whatever the services answer.
pub register-run-ends :
    {P : Type 0} (env : Env P) (d : Wiring) (w : World P)
    → run_step_graph env (new_guest_register_flow env d) 3 register_guest w ≢ none
register-run-ends env d w =
    run-ends env (new_guest_register_flow env d) rank 3 register_guest w (lower env d) (omega arith)
