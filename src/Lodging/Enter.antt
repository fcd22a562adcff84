-- ===== src/Lodging/Enter.antt =====
-- `Validate` and `loadCache` of internal/app/steps/lodging_step/run_lodging.go.
use kenshu_elaris_project_gu.Prelude.{not}
use kenshu_elaris_project_gu.Cache.{load}
use kenshu_elaris_project_gu.Domain.{Guest, GuestJourneyBooking, Period}
use kenshu_elaris_project_gu.GoText.{Text, is_empty}
use kenshu_elaris_project_gu.Lodging.Plan.{LodgingFlow, is_empty_plan}
use kenshu_elaris_project_gu.Wiring.{Wiring}
use kenshu_elaris_project_gu.World.{
  Action, Env, cache_is_nil, chat_factory_is_nil, chat_url_is_empty, expect,
  invalid_booking_context, invalid_guest_context, notification_is_nil, pure, reject_if,
  show_up_is_empty, state_is_nil, ◌>>=◌, ◌>>◌,
}

-- The cache value with the pointers followed that `loadCache` has tested.
pub record Lodger : Type 0 where
  pub personal_info : Guest
  pub booking : GuestJourneyBooking
  pub selected_period : Period

module _ {P : Type 0} where
  -- `RunLodgingStep.Validate`
  unfoldable pub validate : Wiring → Text → LodgingFlow → Action P (Unit {0})
  validate d chat_url flow = do
    reject_if (not d.state_set) state_is_nil
    reject_if (not d.cache_set) cache_is_nil
    reject_if (not d.factory_set) chat_factory_is_nil
    reject_if (not d.notification_set) notification_is_nil
    reject_if (is_empty chat_url) chat_url_is_empty
    reject_if (is_empty_plan flow.show_up) show_up_is_empty

  -- `loadCache`
  unfoldable pub load_cache : Env P → Action P Lodger
  load_cache env = do
    value ← load env
    guest ← expect value.personal_info invalid_guest_context
    b ← expect value.booking invalid_booking_context
    reject_if (is_empty b.booking_id) invalid_booking_context
    period ← expect b.selected_period invalid_booking_context
    pure (record { personal_info = guest; booking = b; selected_period = period })
