-- ===== src/BookingFlow/Quiet.antt =====
-- On the steps of the booking flow and their guards: what they leave of a number read off the requests.
use kenshu_elaris_project_gu.ListCottages
use kenshu_elaris_project_gu.SelectCottage
use kenshu_elaris_project_gu.SelectPeriod
use kenshu_elaris_project_gu.BookCottage
use kenshu_elaris_project_gu.Prelude.{
  List, [], arith, get_elem?, length, not, refl, suc, ℕ, ◌∷◌, ◌≡◌,
}
use kenshu_elaris_project_gu.BookingFlow.{
  BookingStep, book_cottage, end, list_cottages, select_cottage, select_period, validate_step,
}
use kenshu_elaris_project_gu.Cache.{load, save}
use kenshu_elaris_project_gu.Domain.{
  AvailablePeriodDto, GuestJourneyBooking, GuestJourneyCacheValue,
}
use kenshu_elaris_project_gu.GoText.{Text}
use kenshu_elaris_project_gu.GoTime.{Instant, add_days, day_of, start_of_utc_day}
use kenshu_elaris_project_gu.Quiet.{
  Quiet, bind-Quiet, call-Quiet, deref-Quiet, expect-Quiet, follow_set-Quiet, load-Quiet,
  pure-Quiet, rand_intn-Quiet, reject_if-Quiet, save-Quiet,
}
use kenshu_elaris_project_gu.SelectPeriod.{
  choose, collect_cottages, collect_stay_candidates, collect_windows, load_available_periods,
  names_of, number_of_nights, search_windows, selected_of, some_cottages,
}
use kenshu_elaris_project_gu.SelectPeriod.Nearest.{min_search_lead_days}
use kenshu_elaris_project_gu.SelectPeriod.Ranking.{StayCandidate}
use kenshu_elaris_project_gu.Wiring.{Wiring}
use kenshu_elaris_project_gu.World.{
  Env, Reply, Request, call, clock_failed, cottage_names_is_empty, deref, expect, follow_set,
  get_available_dates, get_cottages, invalid_booking_context, no_suitable_period, rand_intn,
  reject_if, ◌>>=◌,
}

-- `f` does not count the requests that only ask.
module _ {P : Type 0} (env : Env P) (f : List Request → ℕ)
    (cottages_quiet : (sent : List Request) → f (get_cottages ∷ sent) ≡ f sent)
    (dates_quiet : (name : Text) (a b : ℕ) (sent : List Request)
      → f (get_available_dates name a b ∷ sent) ≡ f sent) where
  pub list-Quiet : Quiet f (ListCottages.execute env)
  unfolding ListCottages.execute
  list-Quiet = bind-Quiet f (follow_set env.http_client_set) _ (follow_set-Quiet f _) λ _.
      bind-Quiet f (call get_cottages env.cottages) _
        (call-Quiet f get_cottages env.cottages cottages_quiet) λ cottages w. refl

  pub select_cottage-Quiet : Quiet f (SelectCottage.execute env)
  unfolding SelectCottage.execute
  select_cottage-Quiet w =
      let names = SelectPeriod.names_of w.state.cottage_names in
      bind-Quiet f (rand_intn env (length names)) _ (rand_intn-Quiet f env (length names))
        (λ i.
          bind-Quiet f (deref (get_elem? names i)) _ (deref-Quiet f (get_elem? names i))
            λ selected. bind-Quiet f (load env) _ (load-Quiet f env) λ value. save-Quiet f env _)
        w

  load_periods-Quiet :
      (cottage : Text) (now : Instant) (window : ℕ)
      → Quiet f (SelectPeriod.load_available_periods env cottage now window)
  unfolding SelectPeriod.load_available_periods
  load_periods-Quiet cottage now window =
      let from = add_days (start_of_utc_day now) min_search_lead_days in
      let to = add_days from window in
      let q = get_available_dates cottage (day_of from) (day_of to) in
      let g : ℕ → Reply AvailablePeriodDto =
        λ n. env.available n cottage (day_of from) (day_of to) in
      bind-Quiet f (follow_set env.http_client_set) _ (follow_set-Quiet f _) λ _.
        bind-Quiet f (call q g) _ (call-Quiet f q g (dates_quiet cottage (day_of from) (day_of to)))
          λ dto w. refl

  windows-Quiet :
      (cottage : Text) (now : Instant) (options windows : List ℕ) (cs : List StayCandidate)
      → Quiet f (SelectPeriod.collect_windows env cottage now options windows cs)
  unfolding SelectPeriod.collect_windows
  windows-Quiet cottage now options [] cs = pure-Quiet f cs
  windows-Quiet cottage now options (window ∷ windows) cs =
      bind-Quiet f (SelectPeriod.load_available_periods env cottage now window) _
        (load_periods-Quiet cottage now window)
        λ periods. windows-Quiet cottage now options windows _

  cottages-Quiet :
      (now : Instant) (options : List ℕ) (names : List Text) (cs : List StayCandidate)
      → Quiet f (SelectPeriod.collect_cottages env now options names cs)
  unfolding SelectPeriod.collect_cottages
  cottages-Quiet now options [] cs = pure-Quiet f cs
  cottages-Quiet now options (name ∷ names) cs =
      bind-Quiet f
        (SelectPeriod.collect_windows env name now options SelectPeriod.search_windows cs) _
        (windows-Quiet name now options SelectPeriod.search_windows cs)
        λ more. cottages-Quiet now options names more

  collect-Quiet :
      (now : Instant) (options : List ℕ)
      → Quiet f (SelectPeriod.collect_stay_candidates env now options)
  unfolding SelectPeriod.collect_stay_candidates
  collect-Quiet now options w =
      let names = SelectPeriod.names_of w.state.cottage_names in
      bind-Quiet f (SelectPeriod.collect_cottages env now options names []) _
        (cottages-Quiet now options names []) (λ all v. refl) w

  -- `Execute` from the search on.
  search-Quiet :
      (now : Instant) (value : GuestJourneyCacheValue) (b : GuestJourneyBooking)
      → Quiet f (
          SelectPeriod.collect_stay_candidates env now SelectPeriod.number_of_nights
          >>= λ candidates.
              expect (SelectPeriod.selected_of candidates) no_suitable_period >>= λ selected.
              save env (SelectPeriod.choose value b selected))
  search-Quiet now value b =
      let options = SelectPeriod.number_of_nights in
      bind-Quiet f (SelectPeriod.collect_stay_candidates env now options) _
        (collect-Quiet now options)
        λ candidates.
          bind-Quiet f (expect (SelectPeriod.selected_of candidates) no_suitable_period) _
            (expect-Quiet f (SelectPeriod.selected_of candidates) no_suitable_period)
            λ selected. save-Quiet f env _

  pub select_period-Quiet : Quiet f (SelectPeriod.execute env)
  unfolding SelectPeriod.execute
  select_period-Quiet = bind-Quiet f (follow_set env.clock_set) _ (follow_set-Quiet f _) λ _ w.
      bind-Quiet f (expect (env.now w.calls) clock_failed) _ (expect-Quiet f _ clock_failed)
        (λ now. bind-Quiet f (load env) _ (load-Quiet f env) λ value.
          bind-Quiet f (expect value.booking invalid_booking_context) _
            (expect-Quiet f value.booking invalid_booking_context)
            λ b v.
              bind-Quiet f
                (reject_if (not (SelectPeriod.some_cottages v.state.cottage_names))
                  cottage_names_is_empty)
                _ (reject_if-Quiet f _ cottage_names_is_empty) (λ _. search-Quiet now value b) v)
        (record w { calls = suc w.calls })

-- Behind the guards of a step the world is as before.
pub validate-Quiet :
    {P : Type 0} (env : Env P) (d : Wiring) (f : List Request → ℕ) (s : BookingStep)
    → Quiet f (validate_step env d s)
unfolding validate_step ListCottages.validate SelectCottage.validate SelectPeriod.validate
    BookCottage.validate
validate-Quiet env d f list_cottages w = ground arith
validate-Quiet env d f select_cottage w = ground arith
validate-Quiet env d f select_period w = ground arith
validate-Quiet env d f book_cottage w = ground arith
validate-Quiet env d f end w = refl
