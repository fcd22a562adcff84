-- ===== src/SelectPeriod/Collected.antt =====
-- On `collectStayCandidates`: where the candidates come from.
use kenshu_elaris_project_gu.Prelude.{
  All, All-append, Any, List, Option, [], inl, inr, none, refl, some, subst, sym, ℕ, ◌++◌, ◌∙◌, ◌∷◌,
  ◌≡◌,
}
use kenshu_elaris_project_gu.Domain.{AvailablePeriodDto, Period}
use kenshu_elaris_project_gu.GoText.{Text}
use kenshu_elaris_project_gu.GoTime.{Instant, add_days, day_of, start_of_utc_day, sub_time}
use kenshu_elaris_project_gu.SelectPeriod.{
  collect_cottages, collect_stay_candidates, collect_windows, first_suitable,
  load_available_periods, names_of, offered, search_windows, to_periods,
}
use kenshu_elaris_project_gu.SelectPeriod.Covered.{AllHeard, collect_cottages-Covers}
use kenshu_elaris_project_gu.SelectPeriod.Nearest.{
  min_search_lead_days, pick_nearest_suitable_period,
}
use kenshu_elaris_project_gu.SelectPeriod.Nearest.Earliest.{
  IsStay, Stays, pick_nearest_suitable_period-Stays, search_start_of,
}
use kenshu_elaris_project_gu.SelectPeriod.Ranking.{
  StayCandidate, sort_stable, unique_stay_candidates,
}
use kenshu_elaris_project_gu.SelectPeriod.Ranking.Order.{AtMost}
use kenshu_elaris_project_gu.World.{Env, World, body, pure}
use kenshu_elaris_project_gu.World.Rules.{
  Ensures, Ensures-both, Ensures-weaken, bind-Ensures, follow_set-Ensures, read_reply-Ensures,
}

-- A candidate for a cottage of the list, in a period that the cottage service answered with.
pub record IsOffer {P : Type 0} (env : Env P) (now : Instant) (names : List Text) (options : List ℕ)
    (c : StayCandidate) : Type 0 where
  pub listed : Any (λ name. name ≡ c.cottage_name) names
  pub optional : Any (λ n. n ≡ c.nights) options
  pub number : ℕ
  pub from : ℕ
  pub to : ℕ
  pub answer : AvailablePeriodDto
  pub answered : env.available number c.cottage_name from to ≡ body answer
  pub stay : Any (IsStay (search_start_of now) c.nights c.period) (to_periods answer)
  pub distance_known : c.distance ≡ sub_time c.period.start now

All-listed_in :
    (names more : List Text)
    → ((name : Text) → Any (λ n. n ≡ name) more → Any (λ n. n ≡ name) names)
    → All (λ cottage. Any (λ name. name ≡ cottage) names) more
All-listed_in names [] h = tt
All-listed_in names (m ∷ more) h =
    (h m (inl refl), All-listed_in names more (λ name k. h name (inr k)))

All-listed : (names : List Text) → All (λ cottage. Any (λ name. name ≡ cottage) names) names
All-listed names = All-listed_in names names (λ name k. k)

abbrev Suitable : Instant → List Period → List ℕ → Option (Period × ℕ) → Type 0
Suitable now periods options none = Unit {0}
Suitable now periods options (some (p, n)) =
    Any (IsStay (search_start_of now) n p) periods × Any (λ m. m ≡ n) options

Suitable-more :
    (now : Instant) (periods : List Period) (n : ℕ) (options : List ℕ) (r : Option (Period × ℕ))
    → Suitable now periods options r
    → Suitable now periods (n ∷ options) r
Suitable-more now periods n options none h = tt
Suitable-more now periods n options (some (p, k)) h = (h.0, inr h.1)

first_suitable-Suitable :
    (now : Instant) (periods : List Period) (options : List ℕ)
    → Suitable now periods options (first_suitable now periods options)
unfolding first_suitable
first_suitable-Suitable now periods [] = tt
first_suitable-Suitable now periods (n ∷ options) =
    go (pick_nearest_suitable_period now periods n)
      (pick_nearest_suitable_period-Stays now periods n)
      (first_suitable-Suitable now periods options)
  where
    go :
        (r : Option Period)
        → Stays now periods n r
        → Suitable now periods options (first_suitable now periods options)
        → Suitable now periods
            (n ∷ options)
            (elim r [ none ↦ first_suitable now periods options | some p ↦ some (p, n) ])
    go none s rest = Suitable-more now periods n options (first_suitable now periods options) rest
    go (some p) s rest = (s, inl refl)

module _ {P : Type 0} (env : Env P) (now : Instant) (names : List Text) (options : List ℕ) where
  abbrev Offers : List StayCandidate → Type 0
  Offers = All (IsOffer env now names options)

  -- The candidates are offers, and the world is as it was but for the calls made.
  abbrev pub Collects : World P → List StayCandidate → World P → Type 0
  Collects w cs w' = Offers cs × (w'.state ≡ w.state) × (w'.store ≡ w.store)

  offered-Offers :
      (cottage : Text) (number from to : ℕ) (answer : AvailablePeriodDto) (r : Option (Period × ℕ))
      → Any (λ name. name ≡ cottage) names
      → env.available number cottage from to ≡ body answer
      → Suitable now (to_periods answer) options r
      → Offers (offered now cottage r)
  unfolding offered
  offered-Offers cottage number from to answer none listed answered h = tt
  offered-Offers cottage number from to answer (some (p, n)) listed answered h = (
    record {
      listed = listed;
      optional = h.1;
      number = number;
      from = from;
      to = to;
      answer = answer;
      answered = answered;
      stay = h.0;
      distance_known = refl;
    },
    tt,
  )

  -- The periods are those of an answer of the cottage service.
  record Available (cottage : Text) (w : World P) (periods : List Period) (w' : World P)
      : Type 0 where
    number : ℕ
    from : ℕ
    to : ℕ
    answer : AvailablePeriodDto
    answered : env.available number cottage from to ≡ body answer
    read : periods ≡ to_periods answer
    same_state : w'.state ≡ w.state
    same_store : w'.store ≡ w.store

  load-Available :
      (cottage : Text) (window : ℕ) (w : World P)
      → Ensures (Available cottage w) (load_available_periods env cottage now window w)
  unfolding load_available_periods
  load-Available cottage window w =
      let first = add_days (start_of_utc_day now) min_search_lead_days in
      follow_set-Ensures (Available cottage w) env.http_client_set _ w (
        read_reply-Ensures _
          (env.available w.calls cottage (day_of first) (day_of (add_days first window))) _ _
          λ dto e. record {
            number = w.calls;
            from = day_of first;
            to = day_of (add_days first window);
            answer = dto;
            answered = e;
            read = refl;
            same_state = refl;
            same_store = refl;
          })

  collect_windows-Collects :
      (cottage : Text) (windows : List ℕ) (cs : List StayCandidate) (w : World P)
      → Any (λ name. name ≡ cottage) names
      → Offers cs
      → Ensures (Collects w) (collect_windows env cottage now options windows cs w)
  unfolding collect_windows
  collect_windows-Collects cottage [] cs w listed h = (h, refl, refl)
  collect_windows-Collects cottage (window ∷ windows) cs w listed h =
      bind-Ensures (Available cottage w) (Collects w)
        (load_available_periods env cottage now window w)
        (λ periods.
          collect_windows env cottage now options windows
            (cs ++ offered now cottage (first_suitable now periods options)))
        (load-Available cottage window w)
        λ periods w1 a.
          Ensures-weaken (Collects w1) (Collects w)
            (collect_windows env cottage now options windows
              (cs ++ offered now cottage (first_suitable now periods options)) w1)
            (λ cs' w2 (o, s, t). (o, s ∙ a.same_state, t ∙ a.same_store))
            (collect_windows-Collects cottage windows
              (cs ++ offered now cottage (first_suitable now periods options)) w1 listed
              (All-append _ cs (offered now cottage (first_suitable now periods options)) h (
                offered-Offers cottage a.number a.from a.to a.answer
                  (first_suitable now periods options) listed a.answered
                  (subst (λ ps. Suitable now ps options (first_suitable now periods options)) a.read
                    (first_suitable-Suitable now periods options)))))

  collect_cottages-Collects :
      (cottages : List Text) (cs : List StayCandidate) (w : World P)
      → All (λ cottage. Any (λ name. name ≡ cottage) names) cottages
      → Offers cs
      → Ensures (Collects w) (collect_cottages env now options cottages cs w)
  unfolding collect_cottages
  collect_cottages-Collects [] cs w listed h = (h, refl, refl)
  collect_cottages-Collects (cottage ∷ cottages) cs w listed h =
      bind-Ensures (Collects w) (Collects w)
        (collect_windows env cottage now options search_windows cs w)
        (λ more. collect_cottages env now options cottages more)
        (collect_windows-Collects cottage search_windows cs w listed.0 h)
        λ more w1 (offers, state, store).
          Ensures-weaken (Collects w1) (Collects w)
            (collect_cottages env now options cottages more w1)
            (λ cs' w2 (o, s, t). (o, s ∙ state, t ∙ store))
            (collect_cottages-Collects cottages more w1 listed.1 offers)

  -- The candidates of the whole search, before they are ordered and made unique, are offers, and
  -- every window of every cottage counts among them.
  pub collect-Collects :
      (w : World P)
      → names ≡ names_of w.state.cottage_names
      → Ensures
          (λ cs w'.
            (all : List StayCandidate) × Offers all
            × ((b : StayCandidate) → All (AtMost b) all → AllHeard env now options b names)
            × (cs ≡ unique_stay_candidates (sort_stable all))
            × (w'.state ≡ w.state)
            × (w'.store ≡ w.store))
          (collect_stay_candidates env now options w)
  unfolding collect_stay_candidates
  collect-Collects w e =
      bind-Ensures
        (λ all w'.
          Collects w all w'
          × ((b : StayCandidate)
              → All (AtMost b) all
              → All (AtMost b) [] × AllHeard env now options b (names_of w.state.cottage_names)))
        _ (collect_cottages env now options (names_of w.state.cottage_names) [] w)
        (λ candidates. pure (unique_stay_candidates (sort_stable candidates)))
        (Ensures-both (Collects w) _ _
          (collect_cottages-Collects (names_of w.state.cottage_names) [] w
            (subst (λ l. All (λ cottage. Any (λ name. name ≡ cottage) names) l) e
              (All-listed names))
            tt)
          (collect_cottages-Covers env now options (names_of w.state.cottage_names) [] w))
        λ all w1 ((offers, state, store), covers). (
          all,
          offers,
          λ b h. subst (AllHeard env now options b) (sym e) (covers b h).1,
          refl,
          state,
          store,
        )
