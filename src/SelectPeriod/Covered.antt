-- ===== src/SelectPeriod/Covered.antt =====
-- On `collectStayCandidates`: every window of every cottage is asked for, and counts.
use kenshu_elaris_project_gu.Prelude.{All, List, [], refl, ℕ, ◌++◌, ◌∷◌, ◌≡◌}
use kenshu_elaris_project_gu.Domain.{AvailablePeriodDto, Period}
use kenshu_elaris_project_gu.GoText.{Text}
use kenshu_elaris_project_gu.GoTime.{Instant, add_days, day_of, start_of_utc_day}
use kenshu_elaris_project_gu.SelectPeriod.{
  collect_cottages, collect_windows, first_suitable, load_available_periods, offered,
  search_windows, to_periods,
}
use kenshu_elaris_project_gu.SelectPeriod.Nearest.{min_search_lead_days}
use kenshu_elaris_project_gu.SelectPeriod.Ranking.{StayCandidate}
use kenshu_elaris_project_gu.SelectPeriod.Ranking.Order.{AtMost}
use kenshu_elaris_project_gu.World.{Env, World, body}
use kenshu_elaris_project_gu.World.Rules.{
  Ensures, Ensures-weaken, bind-Ensures, follow_set-Ensures, read_reply-Ensures,
}

All-split :
    (Q : StayCandidate → Type 0) (xs ys : List StayCandidate)
    → All Q (xs ++ ys)
    → All Q xs × All Q ys
All-split Q [] ys h = (tt, h)
All-split Q (x ∷ xs) ys (h, k) = let (a, b) = All-split Q xs ys k in ((h, a), b)

module _ {P : Type 0} (env : Env P) (now : Instant) (options : List ℕ) where
  -- The first day that is asked for.
  abbrev first_day : Instant
  first_day = add_days (start_of_utc_day now) min_search_lead_days

  -- The service was asked for a window of a cottage and answered with periods, and `b` does not stand
  -- behind the candidate that they give, if they give one.
  pub record IsHeard (b : StayCandidate) (cottage : Text) (window : ℕ) : Type 0 where
    pub number : ℕ
    pub answer : AvailablePeriodDto
    pub answered :
        env.available number cottage (day_of first_day) (day_of (add_days first_day window))
        ≡ body answer
    pub not_behind :
        All (AtMost b) (offered now cottage (first_suitable now (to_periods answer) options))

  -- Every window of some cottages.
  abbrev pub AllHeard : StayCandidate → List Text → Type 0
  AllHeard b cottages = All (λ cottage. All (IsHeard b cottage) search_windows) cottages

  record Answered (cottage : Text) (window : ℕ) (periods : List Period) : Type 0 where
    number : ℕ
    answer : AvailablePeriodDto
    answered :
        env.available number cottage (day_of first_day) (day_of (add_days first_day window))
        ≡ body answer
    read : periods ≡ to_periods answer

  load-Answered :
      (cottage : Text) (window : ℕ) (w : World P)
      → Ensures
          (λ ps _. Answered cottage window ps)
          (load_available_periods env cottage now window w)
  unfolding load_available_periods
  load-Answered cottage window w =
      follow_set-Ensures (λ ps _. Answered cottage window ps) env.http_client_set _ w
        (read_reply-Ensures _
          (env.available w.calls cottage (day_of first_day) (day_of (add_days first_day window))) _
          _ λ dto e. record { number = w.calls; answer = dto; answered = e; read = refl })

  collect_windows-Covers :
      (cottage : Text) (windows : List ℕ) (cs : List StayCandidate) (w : World P)
      → Ensures
          (λ cs' _.
            (b : StayCandidate)
            → All (AtMost b) cs'
            → All (AtMost b) cs × All (IsHeard b cottage) windows)
          (collect_windows env cottage now options windows cs w)
  unfolding collect_windows
  collect_windows-Covers cottage [] cs w = λ b h. (h, tt)
  collect_windows-Covers cottage (window ∷ windows) cs w =
      bind-Ensures (λ ps _. Answered cottage window ps) _
        (load_available_periods env cottage now window w) _ (load-Answered cottage window w)
        λ ps w1 a.
          let new = offered now cottage (first_suitable now ps options) in
          Ensures-weaken _ _ (collect_windows env cottage now options windows (cs ++ new) w1)
            (λ cs' w2 covers b h.
              let (both, rest) = covers b h in
              let (old, here) = All-split (AtMost b) cs new both in
              (
                old,
                (
                  record {
                    number = a.number;
                    answer = a.answer;
                    answered = a.answered;
                    not_behind = rw (← a.read) here;
                  },
                  rest,
                ),
              ))
            (collect_windows-Covers cottage windows (cs ++ new) w1)

  pub collect_cottages-Covers :
      (cottages : List Text) (cs : List StayCandidate) (w : World P)
      → Ensures
          (λ cs' _.
            (b : StayCandidate) → All (AtMost b) cs' → All (AtMost b) cs × AllHeard b cottages)
          (collect_cottages env now options cottages cs w)
  unfolding collect_cottages
  collect_cottages-Covers [] cs w = λ b h. (h, tt)
  collect_cottages-Covers (cottage ∷ cottages) cs w =
      bind-Ensures _ _ (collect_windows env cottage now options search_windows cs w) _
        (collect_windows-Covers cottage search_windows cs w)
        λ more w1 here.
          Ensures-weaken _ _ (collect_cottages env now options cottages more w1)
            (λ cs' w2 covers b h.
              let (all, rest) = covers b h in let (old, heard) = here b all in (old, (heard, rest)))
            (collect_cottages-Covers cottages more w1)
