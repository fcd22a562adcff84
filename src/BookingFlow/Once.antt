-- ===== src/BookingFlow/Once.antt =====
-- On the booking flow: how many booking requests it sends.
use kenshu_elaris_project_gu.Prelude.{List, [], arith, refl, suc, ℕ, ◌+◌, ◌∷◌, ◌≤◌}
use kenshu_elaris_project_gu.BookingFlow.{new_booking_flow, start}
use kenshu_elaris_project_gu.BookingFlow.Sends.{run-Sends}
use kenshu_elaris_project_gu.Flow.{run_step_graph}
use kenshu_elaris_project_gu.Flow.Walk.{AtEnd}
use kenshu_elaris_project_gu.Wiring.{Wiring}
use kenshu_elaris_project_gu.World.{
  Env, Request, World, get_available_dates, get_cottages, get_guest, post_booking, post_guest,
  post_payment,
}

-- How many booking requests have been sent.
unfoldable pub bookings_sent : List Request → ℕ
bookings_sent [] = 0
bookings_sent (post_booking _ _ ∷ requests) = suc (bookings_sent requests)
bookings_sent (post_guest _ ∷ requests) = bookings_sent requests
bookings_sent (get_guest _ ∷ requests) = bookings_sent requests
bookings_sent (get_cottages ∷ requests) = bookings_sent requests
bookings_sent (get_available_dates _ _ _ ∷ requests) = bookings_sent requests
bookings_sent (post_payment _ _ ∷ requests) = bookings_sent requests

module _ {P : Type 0} (env : Env P) (d : Wiring) where
  -- A booking flow from its start that has ended has sent at most one booking request, however it
  -- ended, be it by the end of its context, and however the services answered.
  pub run-books_once :
      (fuel : ℕ) (w : World P)
      → AtEnd
          (λ o w'. bookings_sent w'.sent ≤ bookings_sent w.sent + 1)
          (run_step_graph env (new_booking_flow env d) fuel start w)
  unfolding bookings_sent
  run-books_once =
      run-Sends env bookings_sent 1 (λ _. refl) (λ _ _ _ _. refl) (λ _ _ _. omega arith) d
