-- ===== src/SelectCottage.antt =====
-- internal/app/steps/booking_step/select_cottage.go
use kenshu_elaris_project_gu.Prelude.{
  Bool, List, Option, [], false, get_elem?, length, none, not, some, true, ◌∷◌,
}
use kenshu_elaris_project_gu.Cache.{load, save}
use kenshu_elaris_project_gu.Domain.{GuestJourneyBooking}
use kenshu_elaris_project_gu.GoText.{Text}
use kenshu_elaris_project_gu.SelectPeriod.{names_of}
use kenshu_elaris_project_gu.Wiring.{Wiring}
use kenshu_elaris_project_gu.World.{
  Action, Env, cache_is_nil, cottage_names_is_empty, deref, get_state, rand_intn, reject_if,
  state_is_nil, ◌>>=◌, ◌>>◌,
}

abbrev pub empty_booking : GuestJourneyBooking
empty_booking = record { booking_id = []; selected_cottage = []; selected_period = none }

-- `cacheValue.Booking`, made if it is nil
abbrev pub booking_or_new : Option GuestJourneyBooking → GuestJourneyBooking
booking_or_new none = empty_booking
booking_or_new (some b) = b

-- `s.state.CottageNames != nil && len(s.state.CottageNames) == 0`
abbrev pub is_empty_list : Option (List Text) → Bool
is_empty_list none = false
is_empty_list (some []) = true
is_empty_list (some (_ ∷ _)) = false

module _ {P : Type 0} where
  -- `SelectCottageStep.Validate`
  unfoldable pub validate : Wiring → Action P (Unit {0})
  validate d = do
    reject_if (not d.state_set) state_is_nil
    reject_if (not d.cache_set) cache_is_nil
    s ← get_state
    reject_if (is_empty_list s.cottage_names) cottage_names_is_empty

  -- `SelectCottageStep.Execute`
  unfoldable pub execute : Env P → Action P (Unit {0})
  execute env = do
    s ← get_state
    i ← rand_intn env (length (names_of s.cottage_names))
    selected ← deref (get_elem? (names_of s.cottage_names) i)
    value ← load env
    save env (record value {
      booking = some (record (booking_or_new value.booking) { selected_cottage = selected });
    })
