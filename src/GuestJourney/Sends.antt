-- ===== src/GuestJourney/Sends.antt =====
-- On a whole journey: the requests that it sends.
use kenshu_elaris_project_gu.Prelude.{List, arith, none, refl, some, ℕ, ◌+◌, ◌∷◌, ◌≡◌, ◌≤◌}
use kenshu_elaris_project_gu.BookingFlow.Once.{bookings_sent}
use kenshu_elaris_project_gu.BookingFlow.Sends.{run-Sends}
use kenshu_elaris_project_gu.CreateGuest.{create_guest, validate_booking}
use kenshu_elaris_project_gu.Domain.{BookingRequest, Guest, PayWithCardRequest}
use kenshu_elaris_project_gu.GoText.{Text}
use kenshu_elaris_project_gu.GuestJourney.{
  Ended, Journey, Surroundings, book_and_pay, cleanup_stage, deferred, join_cleanup, journey_body,
  lodging_stage, setup_stage, start_journey,
}
use kenshu_elaris_project_gu.GuestJourney.Rules.{
  AtJourneyEnd, AtJourneyEnd-mono, StageAdds, act-Adds, flow-Adds, stage-Adds, wait_for-Adds,
}
use kenshu_elaris_project_gu.GuestJourney.Silent.{
  cleanup-Quiet, create_guest-Quiet, lodging-Quiet, sync-Quiet, validate_booking-Quiet,
}
use kenshu_elaris_project_gu.JourneyCache.{sync_state_cache}
use kenshu_elaris_project_gu.PaymentFlow.Once.{payments_sent, run-pays_once}
use kenshu_elaris_project_gu.RegisterFlow.Sends.{run-Sends-none}
use kenshu_elaris_project_gu.Waits.{
  match_booking_confirmation, match_checkin_today, match_payment_request,
}
use kenshu_elaris_project_gu.Waits.Quiet.{
  match_checkin-Quiet, match_confirmation-Quiet, match_payment-Quiet,
}
use kenshu_elaris_project_gu.Wiring.{Wiring}
use kenshu_elaris_project_gu.World.{
  Env, Error, Outcome, Request, err, get_available_dates, get_cottages, get_guest, ok, panics,
  post_booking, post_guest, post_payment,
}

-- A number read off the requests that only a booking and a payment request can add to.
record Counts (f : List Request → ℕ) (b p : ℕ) : Type 0 where
  guest_quiet : (g : Guest) (sent : List Request) → f (post_guest g ∷ sent) ≡ f sent
  retrieve_quiet : (id : Text) (sent : List Request) → f (get_guest id ∷ sent) ≡ f sent
  cottages_quiet : (sent : List Request) → f (get_cottages ∷ sent) ≡ f sent
  dates_quiet :
      (name : Text) (from to : ℕ) (sent : List Request)
      → f (get_available_dates name from to ∷ sent) ≡ f sent
  booking_adds :
      (name : Text) (r : BookingRequest) (sent : List Request)
      → f (post_booking name r ∷ sent) ≤ f sent + b
  payment_adds :
      (number : Text) (r : PayWithCardRequest) (sent : List Request)
      → f (post_payment number r ∷ sent) ≤ f sent + p

module _ {P : Type 0} (env : Env P) (d : Wiring) (around : Surroundings) (f : List Request → ℕ)
    (b p : ℕ) (counts : Counts f b p) where
  setup-Adds : StageAdds f 0 (setup_stage env d around)
  unfolding StageAdds setup_stage
  setup-Adds j = omega arith

  lodging-Adds : StageAdds f 0 (lodging_stage env d around)
  unfolding StageAdds lodging_stage
  lodging-Adds j = omega (arith, lodging-Quiet env d f around.stay j.world j.chat)

  cleanup-Adds : StageAdds f 0 (cleanup_stage env d around)
  unfolding StageAdds cleanup_stage
  cleanup-Adds j =
      omega (arith, cleanup-Quiet env d f (around.can_close j.cleanups) j.line.listening j.world)

  book_and_pay-Adds : StageAdds f (b + p) (book_and_pay env d around)
  unfolding book_and_pay
  book_and_pay-Adds =
      stage-Adds f (b + p) b p _ _ (omega arith)
        (flow-Adds f b _ (
          run-Sends env f b counts.cottages_quiet counts.dates_quiet counts.booking_adds d
            around.booking_fuel))
        (stage-Adds f p 0 p _ _ (omega arith)
          (act-Adds f (validate_booking env) (validate_booking-Quiet env d f))
          (stage-Adds f p 0 p _ _ (omega arith)
            (act-Adds f (sync_state_cache env d) (sync-Quiet env d f))
            (stage-Adds f p 0 p _ _ (omega arith)
              (wait_for-Adds f (match_payment_request env around.fold) around.payment_requests
                (match_payment-Quiet env f around.fold))
              (stage-Adds f p p 0 _ _ (omega arith)
                (flow-Adds f p _ (run-pays_once env f p counts.payment_adds d 2))
                (stage-Adds f 0 0 0 _ _ (omega arith)
                  (act-Adds f (sync_state_cache env d) (sync-Quiet env d f))
                  (wait_for-Adds f (match_booking_confirmation env) around.booking_confirmations
                    (match_confirmation-Quiet env f)))))))

  body-Adds : StageAdds f (b + p) (journey_body env d around)
  unfolding journey_body
  body-Adds =
      stage-Adds f (b + p) 0 (b + p) _ _ (omega arith)
        (act-Adds f (create_guest env around.lower around.fake d)
          (create_guest-Quiet env d f around.lower around.fake))
        (stage-Adds f (b + p) 0 (b + p) _ _ (omega arith)
          (flow-Adds f 0 _ (run-Sends-none env d f counts.guest_quiet counts.retrieve_quiet 3))
          (stage-Adds f (b + p) 0 (b + p) _ _ (omega arith) setup-Adds (
            stage-Adds f (b + p) (b + p) 0 _ _ (omega arith) book_and_pay-Adds (
              stage-Adds f 0 0 0 _ _ (omega arith)
                (wait_for-Adds f (match_checkin_today env) around.checkin_todays
                  (match_checkin-Quiet env f))
                (stage-Adds f 0 0 0 _ _ (omega arith) lodging-Adds cleanup-Adds)))))

  join_cleanup-Adds :
      (c : ℕ) (e : Error) (r : Ended P)
      → AtJourneyEnd (λ _ j. f j.world.sent ≤ c) r
      → AtJourneyEnd (λ _ j. f j.world.sent ≤ c) (join_cleanup env d around e r)
  join_cleanup-Adds c e none h = tt
  join_cleanup-Adds c e (some (ok u, j)) h = h
  join_cleanup-Adds c e (some (err x, j)) h = h
  join_cleanup-Adds c e (some (panics, j)) h = h

  deferred-Adds :
      (c : ℕ) (r : Ended P)
      → AtJourneyEnd (λ _ j. f j.world.sent ≤ c) r
      → AtJourneyEnd (λ _ j. f j.world.sent ≤ c) (deferred env d around r)
  unfolding StageAdds
  deferred-Adds c none h = tt
  deferred-Adds c (some (ok u, j)) h = h
  deferred-Adds c (some (err e, j)) h = join_cleanup-Adds c e (cleanup_stage env d around j) (
      AtJourneyEnd-mono f (f j.world.sent + 0) c (cleanup_stage env d around j) (omega (arith, h))
        (cleanup-Adds j))
  deferred-Adds c (some (panics, j)) h = h

  start_journey-Adds : StageAdds f (b + p) (start_journey env d around)
  unfolding StageAdds start_journey
  start_journey-Adds j =
      deferred-Adds (f j.world.sent + (b + p)) (journey_body env d around j) (body-Adds j)

bookings-Counts : Counts bookings_sent 1 0
unfolding bookings_sent
bookings-Counts = record {
  guest_quiet = λ _ _. refl;
  retrieve_quiet = λ _ _. refl;
  cottages_quiet = λ _. refl;
  dates_quiet = λ _ _ _ _. refl;
  booking_adds = λ _ _ _. omega arith;
  payment_adds = λ _ _ _. omega arith;
}

payments-Counts : Counts payments_sent 0 1
unfolding payments_sent
payments-Counts = record {
  guest_quiet = λ _ _. refl;
  retrieve_quiet = λ _ _. refl;
  cottages_quiet = λ _. refl;
  dates_quiet = λ _ _ _ _. refl;
  booking_adds = λ _ _ _. omega arith;
  payment_adds = λ _ _ _. omega arith;
}

AtJourneyEnd-both :
    {P : Type 0} (Q R : Outcome (Unit {0}) → Journey P → Type 0) (e : Ended P)
    → AtJourneyEnd Q e
    → AtJourneyEnd R e
    → AtJourneyEnd (λ o j. Q o j × R o j) e
AtJourneyEnd-both Q R none h k = tt
AtJourneyEnd-both Q R (some (o, j)) h k = (h, k)

-- A journey that has ended, however it ended, has sent at most one booking request and at most one
-- payment request: whatever the services, Redis, the message queue and the chat answer, whatever
-- messages arrive at its waits, and wherever its context ends.
pub start_journey_books_and_pays_once :
    {P : Type 0} (env : Env P) (d : Wiring) (around : Surroundings) (j : Journey P)
    → AtJourneyEnd
        (λ _ j'.
          (bookings_sent j'.world.sent ≤ bookings_sent j.world.sent + 1)
          × (payments_sent j'.world.sent ≤ payments_sent j.world.sent + 1))
        (start_journey env d around j)
unfolding StageAdds
start_journey_books_and_pays_once env d around j =
    AtJourneyEnd-both (λ _ j'. bookings_sent j'.world.sent ≤ bookings_sent j.world.sent + 1)
      (λ _ j'. payments_sent j'.world.sent ≤ payments_sent j.world.sent + 1)
      (start_journey env d around j)
      (start_journey-Adds env d around bookings_sent 1 0 bookings-Counts j)
      (start_journey-Adds env d around payments_sent 0 1 payments-Counts j)
