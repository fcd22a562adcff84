-- ===== src/BookingFlow/Sends.antt =====
-- On the booking flow: a bound on a number read off the requests that it sends.
use kenshu_elaris_project_gu.Prelude.{List, ap, arith, inl, inr, ℕ, ◌+◌, ◌-◌, ◌∷◌, ◌≡◌, ◌≤◌}
use kenshu_elaris_project_gu.BookCottage.Once.{execute-SendsAtMostOne}
use kenshu_elaris_project_gu.BookingFlow.{
  BookingStep, book_cottage, default_booking_flow, end, execute_step, list_cottages,
  new_booking_flow, select_cottage, select_period, start, state_map,
}
use kenshu_elaris_project_gu.BookingFlow.Quiet.{
  list-Quiet, select_cottage-Quiet, select_period-Quiet, validate-Quiet,
}
use kenshu_elaris_project_gu.Domain.{BookingRequest}
use kenshu_elaris_project_gu.Flow.{run_step_graph}
use kenshu_elaris_project_gu.Flow.Ends.{Lists}
use kenshu_elaris_project_gu.Flow.Spends.{run-Spends}
use kenshu_elaris_project_gu.Flow.Walk.{AtEnd}
use kenshu_elaris_project_gu.GoText.{Text}
use kenshu_elaris_project_gu.Wiring.{Wiring}
use kenshu_elaris_project_gu.World.{
  Env, Request, World, get_available_dates, get_cottages, post_booking,
}

-- `f` counts `n` at most for a booking request, and does not count the requests that only ask.
module _ {P : Type 0} (env : Env P) (f : List Request → ℕ) (n : ℕ)
    (cottages_quiet : (sent : List Request) → f (get_cottages ∷ sent) ≡ f sent)
    (dates_quiet : (name : Text) (a b : ℕ) (sent : List Request)
      → f (get_available_dates name a b ∷ sent) ≡ f sent)
    (booking_adds : (name : Text) (r : BookingRequest) (sent : List Request)
      → f (post_booking name r ∷ sent) ≤ f sent + n)
    (d : Wiring) where
  -- Booking may send one request, and nothing behind it; every other step sends none.
  abbrev books : BookingStep → ℕ
  books list_cottages = 0
  books select_cottage = 0
  books select_period = 0
  books book_cottage = n
  books end = 0

  -- What the flow may still add at a step.
  abbrev left : BookingStep → ℕ
  left list_cottages = n
  left select_cottage = n
  left select_period = n
  left book_cottage = n
  left end = 0

  books-le-left : (s : BookingStep) → books s ≤ left s
  books-le-left list_cottages = omega arith
  books-le-left select_cottage = omega arith
  books-le-left select_period = omega arith
  books-le-left book_cottage = omega arith
  books-le-left end = omega arith

  execute-books :
      (s : BookingStep) (w : World P) → f (execute_step env d s w).1.sent ≤ f w.sent + books s
  unfolding execute_step
  execute-books list_cottages w = omega (arith, list-Quiet env f cottages_quiet dates_quiet w)
  execute-books select_cottage w =
      omega (arith, select_cottage-Quiet env f cottages_quiet dates_quiet w)
  execute-books select_period w =
      omega (arith, select_period-Quiet env f cottages_quiet dates_quiet w)
  execute-books book_cottage w = elim (execute-SendsAtMostOne env w) [
    | inl same ↦ omega (arith, ap f same)
    | inr b ↦ omega (arith, ap f b.one_sent, booking_adds _ _ w.sent)
  ]
  execute-books end w = omega arith

  next-left :
      (s : BookingStep) → Lists (λ t. left t ≤ left s - books s) ((new_booking_flow env d).next s)
  unfolding new_booking_flow state_map default_booking_flow
  next-left list_cottages = omega arith
  next-left select_cottage = omega arith
  next-left select_period = omega arith
  next-left book_cottage = omega arith
  next-left end = tt

  pub run-Sends :
      (fuel : ℕ) (w : World P)
      → AtEnd
          (λ o w'. f w'.sent ≤ f w.sent + n)
          (run_step_graph env (new_booking_flow env d) fuel start w)
  unfolding new_booking_flow
  run-Sends fuel w =
      run-Spends env (new_booking_flow env d) f books left (validate-Quiet env d f) execute-books
        books-le-left next-left fuel start w
