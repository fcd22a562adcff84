-- ===== src/SelectPeriod.antt =====
-- internal/app/steps/booking_step/select_period.go: the guest looks for the earliest stay in any cottage.
pub mod Nearest
pub mod Ranking
pub mod Chosen
pub mod Collected
pub mod Covered
pub mod Execute
use Nearest.{min_search_lead_days, pick_nearest_suitable_period}
use Ranking.{StayCandidate, sort_stable, unique_stay_candidates}
use kenshu_elaris_project_gu.Prelude.{
  Bool, List, Option, [], false, map, none, not, some, take, true, ℕ, ◌++◌, ◌∷◌,
}
use kenshu_elaris_project_gu.Cache.{load, save}
use kenshu_elaris_project_gu.Domain.{
  AvailablePeriodDto, GuestJourneyBooking, GuestJourneyCacheValue, Period,
}
use kenshu_elaris_project_gu.GoText.{Text}
use kenshu_elaris_project_gu.GoTime.{Instant, add_days, day_of, start_of_utc_day, sub_time}
use kenshu_elaris_project_gu.Wiring.{Wiring}
use kenshu_elaris_project_gu.World.{
  Action, Env, ask, cache_is_nil, call, clock_failed, cottage_names_is_empty, expect, follow_set,
  get_available_dates, get_state, invalid_booking_context, no_suitable_period, pure, reject_if,
  state_is_nil, ◌>>=◌, ◌>>◌,
}

abbrev pub number_of_nights : List ℕ
number_of_nights = 3 ∷ 5 ∷ 7 ∷ 10 ∷ 14 ∷ []

abbrev pub search_windows : List ℕ
search_windows = 3 ∷ 5 ∷ 7 ∷ 10 ∷ 14 ∷ 21 ∷ 30 ∷ []

abbrev pub max_period_attempts : ℕ
max_period_attempts = 5

-- `AvailablePeriodDTO.ToPeriods`
abbrev pub to_periods : AvailablePeriodDto → List Period
to_periods d = map (λ p. record { start = p.check_in; end = p.check_out }) d.periods

-- The loop over the night options, which ends at the first that has a period.
unfoldable pub first_suitable : Instant → List Period → List ℕ → Option (Period × ℕ)
first_suitable now periods [] = none
first_suitable now periods (nights ∷ options) =
    elim (pick_nearest_suitable_period now periods nights) [
      | none ↦ first_suitable now periods options
      | some p ↦ some (p, nights)
    ]

-- What one window adds to the candidates.
unfoldable pub offered : Instant → Text → Option (Period × ℕ) → List StayCandidate
offered now cottage none = []
offered now cottage (some (p, n)) =
    record { cottage_name = cottage; period = p; distance = sub_time p.start now; nights = n } ∷ []

abbrev pub some_cottages : Option (List Text) → Bool
some_cottages none = false
some_cottages (some []) = false
some_cottages (some (_ ∷ _)) = true

abbrev pub names_of : Option (List Text) → List Text
names_of none = []
names_of (some names) = names

abbrev pub head_of : List StayCandidate → Option StayCandidate
head_of [] = none
head_of (c ∷ _) = some c

-- `candidates[0]`, after the cut to `max_period_attempts`; none if there is no candidate.
abbrev pub selected_of : List StayCandidate → Option StayCandidate
selected_of candidates = head_of (take max_period_attempts candidates)

unfoldable pub choose :
    GuestJourneyCacheValue → GuestJourneyBooking → StayCandidate → GuestJourneyCacheValue
choose value booking c = record value {
  booking =
      some (record booking { selected_cottage = c.cottage_name; selected_period = some c.period });
}

module _ {P : Type 0} where
  -- `SelectPeriodStep.Validate`
  unfoldable pub validate : Wiring → Action P (Unit {0})
  validate d = do reject_if (not d.state_set) state_is_nil; reject_if (not d.cache_set) cache_is_nil

module _ {P : Type 0} (env : Env P) where
  unfoldable pub load_available_periods : Text → Instant → ℕ → Action P (List Period)
  load_available_periods cottage now window = do
    let from = add_days (start_of_utc_day now) min_search_lead_days
    let to = add_days from window
    follow_set env.http_client_set
    dto ←
        call (get_available_dates cottage (day_of from) (day_of to))
          (λ n. env.available n cottage (day_of from) (day_of to))
    pure (to_periods dto)

  -- The loop over the windows of one cottage.
  unfoldable pub collect_windows :
      Text → Instant → List ℕ → List ℕ → List StayCandidate → Action P (List StayCandidate)
  collect_windows cottage now options [] candidates = pure candidates
  collect_windows cottage now options (window ∷ windows) candidates = do
    periods ← load_available_periods cottage now window
    collect_windows cottage now options windows
        (candidates ++ offered now cottage (first_suitable now periods options))

  -- The loop over the cottages.
  unfoldable pub collect_cottages :
      Instant → List ℕ → List Text → List StayCandidate → Action P (List StayCandidate)
  collect_cottages now options [] candidates = pure candidates
  collect_cottages now options (cottage ∷ cottages) candidates = do
    more ← collect_windows cottage now options search_windows candidates
    collect_cottages now options cottages more

  unfoldable pub collect_stay_candidates : Instant → List ℕ → Action P (List StayCandidate)
  unfolding collect_cottages
  collect_stay_candidates now options = do
    s ← get_state
    candidates ← collect_cottages now options (names_of s.cottage_names) []
    pure (unique_stay_candidates (sort_stable candidates))

  -- `SelectPeriodStep.Execute`
  unfoldable pub execute : Action P (Unit {0})
  execute = do
    follow_set env.clock_set
    clock ← ask env.now
    now ← expect clock clock_failed
    value ← load env
    booking ← expect value.booking invalid_booking_context
    s ← get_state
    reject_if (not (some_cottages s.cottage_names)) cottage_names_is_empty
    candidates ← collect_stay_candidates now number_of_nights
    selected ← expect (selected_of candidates) no_suitable_period
    save env (choose value booking selected)
