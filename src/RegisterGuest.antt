-- ===== src/RegisterGuest.antt =====
-- internal/app/steps/register_guest_step/register_guest.go
pub mod Registered
use kenshu_elaris_project_gu.Prelude.{not, some}
use kenshu_elaris_project_gu.Cache.{load, save}
use kenshu_elaris_project_gu.Wiring.{Wiring}
use kenshu_elaris_project_gu.World.{
  Action, Env, cache_is_nil, call, client_is_nil, expect, get_state, invalid_guest_context,
  post_guest, reject_if, set_state, state_is_nil, ◌>>=◌, ◌>>◌,
}

module _ {P : Type 0} where
  -- `RegisterGuestStep.Validate`
  unfoldable pub validate : Wiring → Action P (Unit {0})
  validate d = do
    reject_if (not d.client_set) client_is_nil
    reject_if (not d.state_set) state_is_nil
    reject_if (not d.cache_set) cache_is_nil

  -- `RegisterGuestStep.Execute`
  unfoldable pub execute : Env P → Action P (Unit {0})
  execute env = do
    value ← load env
    guest ← expect value.personal_info invalid_guest_context
    s ← get_state
    set_state (record s { guest = some guest })
    id ← call (post_guest guest) (λ n. env.guest_id_of n guest)
    s' ← get_state
    set_state (record s' { guest_id = id })
    save env (record value { guest_id = id; personal_info = some guest })
