-- ===== src/Witness/BookingRuns.antt =====
-- The theorems on booking and paying, at worlds where the steps succeed.
use kenshu_elaris_project_gu.BookCottage
use kenshu_elaris_project_gu.SelectPeriod
use kenshu_elaris_project_gu.PayInvoice
use kenshu_elaris_project_gu.Prelude.{arith, refl, sym, ◌+◌, ◌≡◌, ◌≢◌, ◌≤◌, ◌⊎◌}
use kenshu_elaris_project_gu.BookCottage.{book, booking_request, with_booking_id}
use kenshu_elaris_project_gu.BookCottage.Once.{
  AnswersWithIds, SendsAtMostOne, execute-SendsAtMostOne, execute-execute_sends_none,
}
use kenshu_elaris_project_gu.BookingFlow.{new_booking_flow, start}
use kenshu_elaris_project_gu.BookingFlow.Once.{bookings_sent, run-books_once}
use kenshu_elaris_project_gu.BookingFlow.Panics.{run-Returns}
use kenshu_elaris_project_gu.Cache.{ensure_key, get, insert, load, lookup, save, set}
use kenshu_elaris_project_gu.Cache.Laws.{RoundTrips}
use kenshu_elaris_project_gu.Domain.{GuestJourneyCacheValue}
use kenshu_elaris_project_gu.Flow.{run_step_graph}
use kenshu_elaris_project_gu.Flow.Walk.{AtEnd}
use kenshu_elaris_project_gu.GoText.{text_eq, trim_space}
use kenshu_elaris_project_gu.PayInvoice.{card, pay, settle, with_receipt}
use kenshu_elaris_project_gu.PayInvoice.Paid.{Accepted, Paid, execute-Paid, execute-store}
use kenshu_elaris_project_gu.Witness.Data.{
  all_set, invoiced_value, services, unbooked_value, world_with,
}
use kenshu_elaris_project_gu.World.{World, ok, panics}

abbrev before : World GuestJourneyCacheValue
before = world_with unbooked_value

abbrev invoiced : World GuestJourneyCacheValue
invoiced = world_with invoiced_value

book_runs : BookCottage.execute services before ≡ (ok tt, (BookCottage.execute services before).1)
unfolding BookCottage.execute BookCottage.book BookCottage.booking_request
    BookCottage.with_booking_id load save get set ensure_key lookup insert text_eq
book_runs = refl

pay_runs :
    PayInvoice.execute services all_set invoiced
    ≡ (ok tt, (PayInvoice.execute services all_set invoiced).1)
unfolding PayInvoice.execute PayInvoice.validate PayInvoice.settle PayInvoice.pay PayInvoice.card
    PayInvoice.with_receipt load save get set ensure_key lookup insert text_eq trim_space
pay_runs = refl

execute-SendsAtMostOne_example :
    SendsAtMostOne services before (BookCottage.execute services before).1
execute-SendsAtMostOne_example = execute-SendsAtMostOne services before

services-RoundTrips : RoundTrips services
services-RoundTrips v p e = sym e

services-ids : AnswersWithIds services
services-ids n cottage r a e = ground (arith, e)

execute-execute_sends_none_example :
    (BookCottage.execute services (BookCottage.execute services before).1).1.sent
    ≡ (BookCottage.execute services before).1.sent
execute-execute_sends_none_example =
    execute-execute_sends_none services before (BookCottage.execute services before).1
      services-RoundTrips services-ids book_runs

execute-Paid_example : Paid services invoiced (PayInvoice.execute services all_set invoiced).1
execute-Paid_example =
    execute-Paid services all_set invoiced (PayInvoice.execute services all_set invoiced).1 pay_runs

execute-store_example :
    ((PayInvoice.execute services all_set invoiced).1.store ≡ invoiced.store)
    ⊎ Accepted services invoiced
execute-store_example = execute-store services all_set invoiced

run-books_once_example :
    AtEnd
      (λ o w'. bookings_sent w'.sent ≤ bookings_sent before.sent + 1)
      (run_step_graph services (new_booking_flow services all_set) 6 start before)
run-books_once_example = run-books_once services all_set 6 before

run-Returns_example :
    AtEnd
      (λ o _. o ≢ panics)
      (run_step_graph services (new_booking_flow services all_set) 6 start before)
run-Returns_example = run-Returns services all_set refl refl 6 before
