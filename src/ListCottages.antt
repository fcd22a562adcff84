-- ===== src/ListCottages.antt =====
-- internal/app/steps/booking_step/list_cottages.go
use kenshu_elaris_project_gu.Prelude.{map, not, some}
use kenshu_elaris_project_gu.Wiring.{Wiring}
use kenshu_elaris_project_gu.World.{
  Action, Env, call, follow_set, get_cottages, get_state, reject_if, set_state, state_is_nil, ◌>>=◌,
  ◌>>◌,
}

module _ {P : Type 0} where
  -- `ListCottagesStep.Validate`
  unfoldable pub validate : Wiring → Action P (Unit {0})
  validate d = reject_if (not d.state_set) state_is_nil

  -- `ListCottagesStep.Execute`
  unfoldable pub execute : Env P → Action P (Unit {0})
  execute env = do
    follow_set env.http_client_set
    cottages ← call get_cottages env.cottages
    s ← get_state
    set_state (record s { cottage_names = some (map (λ c. c.name) cottages) })
