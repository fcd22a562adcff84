-- ===== src/RetrieveGuest.antt =====
-- internal/app/steps/register_guest_step/retrieve_guest.go
use kenshu_elaris_project_gu.Prelude.{if◌then◌else◌, none, some}
use kenshu_elaris_project_gu.GoText.{is_empty}
use kenshu_elaris_project_gu.Wiring.{Wiring}
use kenshu_elaris_project_gu.World.{
  Action, Env, call, deref, follow_set, get_guest, get_state, guest_id_is_empty, reject_if, ◌>>=◌,
  ◌>>◌,
}

module _ {P : Type 0} where
  -- `RetrieveGuestStep.Validate`, which follows the state's pointer without a test
  unfoldable pub validate : Wiring → Action P (Unit {0})
  validate d = do
    deref (if d.state_set then some tt else none)
    s ← get_state
    reject_if (is_empty s.guest_id) guest_id_is_empty

  -- `RetrieveGuestStep.Execute`; the body of the answer is only logged
  unfoldable pub execute : Env P → Action P (Unit {0})
  execute env = do
    follow_set env.http_client_set
    s ← get_state
    call (get_guest s.guest_id) (λ n. env.retrieved n s.guest_id)
