-- ===== src/BookingFlow/Returns.antt =====
-- On the steps of the booking flow: which of them panic, and when.
use kenshu_elaris_project_gu.ListCottages
use kenshu_elaris_project_gu.SelectCottage
use kenshu_elaris_project_gu.SelectPeriod
use kenshu_elaris_project_gu.BookCottage
use kenshu_elaris_project_gu.Prelude.{
  Bool, List, Option, [], arith, false, get_elem?, length, none, not, refl, some, suc, true, zero,
  ℕ, ◌%◌, ◌<◌, ◌∷◌, ◌≡◌, ◌≢◌,
}
use kenshu_elaris_project_gu.BookCottage.{book}
use kenshu_elaris_project_gu.Cache.{ensure_key, get, load, save, set}
use kenshu_elaris_project_gu.Domain.{GuestJourneyCacheValue}
use kenshu_elaris_project_gu.Flow.Walk.{ticked}
use kenshu_elaris_project_gu.GoText.{Text, is_empty}
use kenshu_elaris_project_gu.GoTime.{Instant}
use kenshu_elaris_project_gu.SelectPeriod.{
  choose, collect_cottages, collect_stay_candidates, collect_windows, load_available_periods,
  names_of, number_of_nights, search_windows, selected_of, some_cottages,
}
use kenshu_elaris_project_gu.SelectPeriod.Ranking.{StayCandidate}
use kenshu_elaris_project_gu.World.{
  Action, Env, Error, Outcome, Reply, World, body, clock_failed, continue, cottage_names_is_empty,
  deref, err, expect, follow_set, invalid_booking_context, no_suitable_period, ok, panics,
  rand_intn, read_reply, reject_if, status_error, unreachable, unreadable,
}
use kenshu_elaris_project_gu.World.Rules.{Ensures}

-- The action returned, be it an error.
abbrev pub Returns : {A P : Type 0} → Outcome A × World P → Type 0
Returns r = r.0 ≢ panics

module _ {P A B : Type 0} where
  pub bind-Returns :
      (r : Outcome A × World P) (f : A → Action P B)
      → Returns r
      → ((a : A) → r.0 ≡ ok a → Returns (f a r.1))
      → Returns (continue r.0 f r.1)
  bind-Returns (ok a, w) f h k = k a refl
  bind-Returns (err e, w) f h k = λ p. cc
  bind-Returns (panics, w) f h k = absurd (h refl)

  pub expect-Returns :
      (o : Option A) (e : Error) (f : A → Action P B) (w : World P)
      → ((a : A) → Returns (f a w))
      → Returns (continue (expect o e w).0 f (expect o e w).1)
  expect-Returns none e f w h = λ p. cc
  expect-Returns (some a) e f w h = h a

  pub read_reply-Returns :
      (r : Reply A) (f : A → Action P B) (w : World P)
      → ((a : A) → Returns (f a w))
      → Returns (continue (read_reply r w).0 f (read_reply r w).1)
  read_reply-Returns unreachable f w h = λ p. cc
  read_reply-Returns status_error f w h = λ p. cc
  read_reply-Returns unreadable f w h = λ p. cc
  read_reply-Returns (body a) f w h = h a

pub follow_set-Returns :
    {P B : Type 0} (set : Bool) (f : Unit {0} → Action P B) (w : World P)
    → set ≡ true
    → Returns (f tt w)
    → Returns (continue (follow_set set w).0 f (follow_set set w).1)
follow_set-Returns true f w there h = h
follow_set-Returns false f w there h = cc

pub reject_if-Returns :
    {P B : Type 0} (bad : Bool) (e : Error) (f : Unit {0} → Action P B) (w : World P)
    → (bad ≡ false → Returns (f tt w))
    → Returns (continue (reject_if bad e w).0 f (reject_if bad e w).1)
reject_if-Returns true e f w h = λ p. cc
reject_if-Returns false e f w h = h refl

pub get_elem?-below : {A : Type 0} (xs : List A) (i : ℕ) → i < length xs → get_elem? xs i ≢ none
get_elem?-below [] i h e = absurd (omega arith)
get_elem?-below (x ∷ xs) zero h e = cc
get_elem?-below (x ∷ xs) (suc i) h e = get_elem?-below xs i (omega arith) e

pub mod_below : (r n : ℕ) → r % suc n < suc n
mod_below r n = omega arith

pub deref-Returns :
    {P A B : Type 0} (o : Option A) (f : A → Action P B) (w : World P)
    → o ≢ none
    → ((a : A) → Returns (f a w))
    → Returns (continue (deref o w).0 f (deref o w).1)
deref-Returns none f w there h = absurd (there refl)
deref-Returns (some a) f w there h = h a

-- The world that an action leaves is the one that it leaves.
pub same_world : {P A : Type 0} (r : Outcome A × World P) → Ensures (λ _ x. x ≡ r.1) r
same_world (ok a, w) = refl
same_world (err e, w) = tt
same_world (panics, w) = tt

module _ {P : Type 0} (env : Env P) where
  pub load-Returns : (w : World P) → Returns (load env w)
  unfolding load get ensure_key
  load-Returns w p = ground (arith, p)

  pub save-Returns : (v : GuestJourneyCacheValue) (w : World P) → Returns (save env v w)
  unfolding save set ensure_key
  save-Returns v w p = ground (arith, p)

  pub list-Returns :
      (w : World P) → env.http_client_set ≡ true → Returns (ListCottages.execute env w)
  unfolding ListCottages.execute
  list-Returns w set =
      follow_set-Returns env.http_client_set _ _ set
        (read_reply-Returns (env.cottages w.calls) _ _ λ cs p. cc)

  pub book-Returns :
      (w : World P) → env.http_client_set ≡ true → Returns (BookCottage.execute env w)
  unfolding BookCottage.execute BookCottage.book
  book-Returns w set = bind-Returns (load env w) _ (load-Returns w) λ value _.
      expect-Returns value.personal_info _ _ _ λ guest. expect-Returns value.booking _ _ _ λ b.
        reject_if-Returns (is_empty b.selected_cottage) _ _ _ λ _.
          expect-Returns b.selected_period _ _ _ λ period.
            reject_if-Returns (not (is_empty b.booking_id)) _ _ _ λ _.
              follow_set-Returns env.http_client_set _ _ set (
                read_reply-Returns (env.booked (load env w).1.calls b.selected_cottage _) _ _
                  λ answer. save-Returns _ _)

  pub rand_intn-Returns : (n : ℕ) (w : World P) → 0 < n → Returns (rand_intn env n w)
  rand_intn-Returns zero w h = absurd (omega arith)
  rand_intn-Returns (suc n) w h = λ p. cc

  pub rand_intn-lt : (n : ℕ) (w : World P) (i : ℕ) → (rand_intn env n w).0 ≡ ok i → i < n
  rand_intn-lt zero w i e = cc
  rand_intn-lt (suc n) w i e = ground (arith, mod_below (env.random w.calls) n, e)

  -- With a list that is not empty a cottage can be drawn.
  pub select_cottage-Returns :
      (w : World P)
      → 0 < length (SelectPeriod.names_of w.state.cottage_names)
      → Returns (SelectCottage.execute env w)
  unfolding SelectCottage.execute
  select_cottage-Returns w some_names =
      let names = SelectPeriod.names_of w.state.cottage_names in
      bind-Returns (rand_intn env (length names) w) _
        (rand_intn-Returns (length names) w some_names)
        λ i drawn.
          deref-Returns (get_elem? names i) _ _
            (get_elem?-below names i (rand_intn-lt (length names) w i drawn))
            λ selected. bind-Returns (load env _) _ (load-Returns _) λ value _. save-Returns _ _

  pub load_periods-Returns :
      (cottage : Text) (now : Instant) (window : ℕ) (w : World P)
      → env.http_client_set ≡ true
      → Returns (SelectPeriod.load_available_periods env cottage now window w)
  unfolding SelectPeriod.load_available_periods
  load_periods-Returns cottage now window w set =
      follow_set-Returns env.http_client_set _ _ set
        (read_reply-Returns (env.available w.calls cottage _ _) _ _ λ dto p. cc)

  pub windows-Returns :
      (cottage : Text) (now : Instant) (options windows : List ℕ) (cs : List StayCandidate)
      (w : World P)
      → env.http_client_set ≡ true
      → Returns (SelectPeriod.collect_windows env cottage now options windows cs w)
  unfolding SelectPeriod.collect_windows
  windows-Returns cottage now options [] cs w set = λ p. cc
  windows-Returns cottage now options (window ∷ windows) cs w set =
      bind-Returns (SelectPeriod.load_available_periods env cottage now window w) _
        (load_periods-Returns cottage now window w set)
        λ periods _. windows-Returns cottage now options windows _ _ set

  pub cottages-Returns :
      (now : Instant) (options : List ℕ) (names : List Text) (cs : List StayCandidate) (w : World P)
      → env.http_client_set ≡ true
      → Returns (SelectPeriod.collect_cottages env now options names cs w)
  unfolding SelectPeriod.collect_cottages
  cottages-Returns now options [] cs w set = λ p. cc
  cottages-Returns now options (name ∷ names) cs w set =
      bind-Returns
        (SelectPeriod.collect_windows env name now options SelectPeriod.search_windows cs w) _
        (windows-Returns name now options SelectPeriod.search_windows cs w set)
        λ more _. cottages-Returns now options names more _ set

  pub collect-Returns :
      (now : Instant) (options : List ℕ) (w : World P)
      → env.http_client_set ≡ true
      → Returns (SelectPeriod.collect_stay_candidates env now options w)
  unfolding SelectPeriod.collect_stay_candidates
  collect-Returns now options w set =
      bind-Returns
        (SelectPeriod.collect_cottages env now options (SelectPeriod.names_of w.state.cottage_names)
          [] w)
        _ (cottages-Returns now options (SelectPeriod.names_of w.state.cottage_names) [] w set)
        λ all _ p. cc

  pub select_period-Returns :
      (w : World P)
      → env.http_client_set ≡ true
      → env.clock_set ≡ true
      → Returns (SelectPeriod.execute env w)
  unfolding SelectPeriod.execute
  select_period-Returns w set timed = follow_set-Returns env.clock_set _ _ timed (
      let w1 : World P = ticked w in
      let w2 : World P = (load env w1).1 in
      expect-Returns (env.now w.calls) clock_failed _ w1 λ now.
        bind-Returns (load env w1) _ (load-Returns w1) λ value _.
          expect-Returns value.booking invalid_booking_context _ w2 λ b.
            reject_if-Returns (not (SelectPeriod.some_cottages w2.state.cottage_names))
              cottage_names_is_empty _ w2
              λ _.
                let all =
                  SelectPeriod.collect_stay_candidates env now SelectPeriod.number_of_nights w2 in
                bind-Returns all _ (collect-Returns now SelectPeriod.number_of_nights w2 set)
                  λ candidates _.
                    expect-Returns (SelectPeriod.selected_of candidates) no_suitable_period _ all.1
                      λ selected. save-Returns (SelectPeriod.choose value b selected) all.1)
