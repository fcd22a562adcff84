-- ===== src/BookCottage.antt =====
-- internal/app/steps/booking_step/book_cottage.go
pub mod Once
use kenshu_elaris_project_gu.Prelude.{not, some, ◌++◌}
use kenshu_elaris_project_gu.Cache.{load, save}
use kenshu_elaris_project_gu.Domain.{
  BookingRequest, Guest, GuestJourneyBooking, GuestJourneyCacheValue, Period,
}
use kenshu_elaris_project_gu.GoText.{Text, is_empty, text}
use kenshu_elaris_project_gu.GoTime.{day_of}
use kenshu_elaris_project_gu.Wiring.{Wiring}
use kenshu_elaris_project_gu.World.{
  Action, Env, booking_already_created, cache_is_nil, call, expect, follow_set, get_state,
  guest_id_is_empty, invalid_booking_context, invalid_guest_context, post_booking, reject_if,
  state_is_nil, ◌>>=◌, ◌>>◌,
}

-- The body of the request. Dates go out as days.
unfoldable pub booking_request : Text → Guest → Period → BookingRequest
booking_request guest_id guest period = record {
  guest_id = guest_id;
  number_of_guests = 1;
  check_in_date = day_of period.start;
  check_out_date = day_of period.end;
  guest_name = guest.given_names ++ (text " " ++ guest.surname);
  guest_email = guest.email;
  guest_document = guest.document_id;
  billing_address = guest.billing_address;
}

unfoldable pub with_booking_id :
    GuestJourneyCacheValue → GuestJourneyBooking → Text → GuestJourneyCacheValue
with_booking_id value b id = record value { booking = some (record b { booking_id = id }) }

module _ {P : Type 0} where
  -- `BookCottageStep.Validate`
  unfoldable pub validate : Wiring → Action P (Unit {0})
  validate d = do
    reject_if (not d.state_set) state_is_nil
    reject_if (not d.cache_set) cache_is_nil
    s ← get_state
    reject_if (is_empty s.guest_id) guest_id_is_empty

  -- The part of `Execute` behind its guards.
  unfoldable pub book :
      Env P → GuestJourneyCacheValue → Guest → GuestJourneyBooking → Period → Action P (Unit {0})
  book env value guest b period = do
    s ← get_state
    let request = booking_request s.guest_id guest period
    confirmation ←
        call (post_booking b.selected_cottage request)
          (λ n. env.booked n b.selected_cottage request)
    save env (with_booking_id value b confirmation.id)

  -- `BookCottageStep.Execute`
  unfoldable pub execute : Env P → Action P (Unit {0})
  execute env = do
    value ← load env
    guest ← expect value.personal_info invalid_guest_context
    b ← expect value.booking invalid_booking_context
    reject_if (is_empty b.selected_cottage) invalid_booking_context
    period ← expect b.selected_period invalid_booking_context
    reject_if (not (is_empty b.booking_id)) booking_already_created
    follow_set env.http_client_set
    book env value guest b period
