-- ===== src/RegisterFlow/Sends.antt =====
-- On the flow of the registration: what it adds to a number read off the requests.
use kenshu_elaris_project_gu.RegisterGuest
use kenshu_elaris_project_gu.RetrieveGuest
use kenshu_elaris_project_gu.Prelude.{List, arith, refl, some, ℕ, ◌+◌, ◌∷◌, ◌≡◌, ◌≤◌}
use kenshu_elaris_project_gu.Cache.{load}
use kenshu_elaris_project_gu.Domain.{Guest}
use kenshu_elaris_project_gu.Flow.{run_step_graph}
use kenshu_elaris_project_gu.Flow.Ends.{Lists}
use kenshu_elaris_project_gu.Flow.Spends.{run-Spends}
use kenshu_elaris_project_gu.Flow.Walk.{AtEnd}
use kenshu_elaris_project_gu.GoText.{Text}
use kenshu_elaris_project_gu.Quiet.{
  Quiet, bind-Quiet, call-Quiet, expect-Quiet, follow_set-Quiet, load-Quiet, save-Quiet,
}
use kenshu_elaris_project_gu.RegisterFlow.{
  RegisterStep, default_guest_register_flow, execute_step, finish, new_guest_register_flow,
  register_guest, retrieve_guest, state_map, validate_step,
}
use kenshu_elaris_project_gu.Wiring.{Wiring}
use kenshu_elaris_project_gu.World.{
  Env, Reply, Request, World, call, expect, follow_set, get_guest, invalid_guest_context,
  post_guest,
}

-- `f` does not count the requests about guests.
module _ {P : Type 0} (env : Env P) (d : Wiring) (f : List Request → ℕ)
    (guest_quiet : (g : Guest) (sent : List Request) → f (post_guest g ∷ sent) ≡ f sent)
    (retrieve_quiet : (id : Text) (sent : List Request) → f (get_guest id ∷ sent) ≡ f sent) where
  register-Quiet : Quiet f (RegisterGuest.execute env)
  unfolding RegisterGuest.execute
  register-Quiet = bind-Quiet f (load env) _ (load-Quiet f env) λ value.
      bind-Quiet f (expect value.personal_info invalid_guest_context) _ (expect-Quiet f _ _)
        λ guest w.
          let q = post_guest guest in
          let g : ℕ → Reply Text = λ i. env.guest_id_of i guest in
          bind-Quiet f (call q g) _ (call-Quiet f q g (guest_quiet guest))
            (λ id v. save-Quiet f env _ _)
            (record w { state = record (w.state) { guest = some guest } })

  retrieve-Quiet : Quiet f (RetrieveGuest.execute env)
  unfolding RetrieveGuest.execute
  retrieve-Quiet w =
      bind-Quiet f (follow_set env.http_client_set) _ (follow_set-Quiet f env.http_client_set)
        (λ _ v.
          let g : ℕ → Reply (Unit {0}) = λ i. env.retrieved i v.state.guest_id in
          call-Quiet f (get_guest v.state.guest_id) g (retrieve_quiet v.state.guest_id) v)
        w

  validate-Quiet : (s : RegisterStep) → Quiet f (validate_step env d s)
  unfolding validate_step RegisterGuest.validate RetrieveGuest.validate
  validate-Quiet register_guest w = ground arith
  validate-Quiet retrieve_guest w = ground arith
  validate-Quiet finish w = refl

  execute-none : (s : RegisterStep) (w : World P) → f (execute_step env d s w).1.sent ≤ f w.sent + 0
  unfolding execute_step
  execute-none register_guest w = omega (arith, register-Quiet w)
  execute-none retrieve_guest w = omega (arith, retrieve-Quiet w)
  execute-none finish w = omega arith

  next-none : (s : RegisterStep) → Lists (λ _. 0 ≤ 0) ((new_guest_register_flow env d).next s)
  unfolding new_guest_register_flow state_map default_guest_register_flow
  next-none register_guest = (omega arith, tt)
  next-none retrieve_guest = (omega arith, tt)
  next-none finish = tt

  pub run-Sends-none :
      (fuel : ℕ) (w : World P)
      → AtEnd
          (λ o w'. f w'.sent ≤ f w.sent + 0)
          (run_step_graph env (new_guest_register_flow env d) fuel register_guest w)
  unfolding new_guest_register_flow
  run-Sends-none fuel w =
      run-Spends env (new_guest_register_flow env d) f (λ _. 0) (λ _. 0) validate-Quiet execute-none
        (λ _. omega arith) next-none fuel register_guest w
