-- ===== src/SelectPeriod/Execute.antt =====
-- `SelectPeriodStep.Execute`: what a run that returns nil has done.
use mathlib.Core.List.{Mem, mem-cons_of_mem, mem-cons_self}
use kenshu_elaris_project_gu.Prelude.{
  All, List, [], ap, arith, not, refl, some, subst, suc, sym, ℕ, ◌∙◌, ◌∷◌, ◌≡◌,
}
use kenshu_elaris_project_gu.Cache.{load, lookup, save}
use kenshu_elaris_project_gu.Cache.Effects.{
  Loaded, Saved, Saved-kept, key_of-keyed, keyed, keyed-keyed, load-Loaded, save-Saved,
}
use kenshu_elaris_project_gu.Cache.Laws.{key_of}
use kenshu_elaris_project_gu.Domain.{GuestJourneyBooking, GuestJourneyCacheValue, State}
use kenshu_elaris_project_gu.GoTime.{Instant}
use kenshu_elaris_project_gu.SelectPeriod.{
  choose, collect_stay_candidates, execute, names_of, number_of_nights, selected_of, some_cottages,
}
use kenshu_elaris_project_gu.SelectPeriod.Chosen.{IsBest, selection-IsBest}
use kenshu_elaris_project_gu.SelectPeriod.Collected.{IsOffer, collect-Collects}
use kenshu_elaris_project_gu.SelectPeriod.Covered.{AllHeard}
use kenshu_elaris_project_gu.SelectPeriod.Ranking.{
  StayCandidate, sort_stable, unique_stay_candidates,
}
use kenshu_elaris_project_gu.SelectPeriod.Ranking.Order.{All-insert_stable, AtMost}
use kenshu_elaris_project_gu.World.{
  Env, World, clock_failed, cottage_names_is_empty, expect, invalid_booking_context,
  no_suitable_period, ◌>>=◌,
}
use kenshu_elaris_project_gu.World.Rules.{
  Ensures, Ensures-weaken, bind-Ensures, expect-Ensures, follow_set-Ensures, reject_if-Ensures,
}

-- The stay that the step saved.
pub record SelectsStay {P : Type 0} (env : Env P) (w w' : World P) : Type 0 where
  pub now : Instant
  pub clock : env.now w.calls ≡ some now
  pub old : P
  pub old_kept : lookup (key_of w) w.store ≡ some old
  pub value : GuestJourneyCacheValue
  pub old_read : env.unmarshal old ≡ some value
  pub booking : GuestJourneyBooking
  pub has_booking : value.booking ≡ some booking
  pub chosen : StayCandidate
  pub best : AllHeard env now number_of_nights chosen (names_of w.state.cottage_names)
  pub offer : IsOffer env now (names_of w.state.cottage_names) number_of_nights chosen
  pub new : P
  pub new_kept : lookup (key_of w) w'.store ≡ some new
  pub new_written : env.marshal (choose value booking chosen) ≡ some new
  pub same_state : w'.state ≡ keyed w

All-sort_stable :
    (Q : StayCandidate → Type 0) (cs : List StayCandidate) → All Q cs → All Q (sort_stable cs)
unfolding sort_stable
All-sort_stable Q [] h = tt
All-sort_stable Q (c ∷ cs) h = All-insert_stable Q c (sort_stable cs) h.0 (All-sort_stable Q cs h.1)

All-selected :
    (Q : StayCandidate → Type 0) (cs : List StayCandidate) (b : StayCandidate)
    → All Q cs
    → selected_of (unique_stay_candidates cs) ≡ some b
    → Q b
unfolding unique_stay_candidates
All-selected Q [] b h e = cc
All-selected Q (c ∷ cs) b h e = subst Q (ground (arith, e)) h.0

IsBest-All : (b : StayCandidate) (cs : List StayCandidate) → IsBest cs (some b) → All (AtMost b) cs
IsBest-All b cs (_, h) = go cs h
  where
    go :
        (ds : List StayCandidate)
        → ((c : StayCandidate) → Mem c ds → AtMost b c)
        → All (AtMost b) ds
    go [] k = tt
    go (d ∷ ds) k = (k d mem-cons_self, go ds (λ c m. k c (mem-cons_of_mem d m)))

module _ {P : Type 0} (env : Env P) where
  execute_end :
      (w w2 w3 : World P) (now : Instant) (value : GuestJourneyCacheValue) (b : GuestJourneyBooking)
      (all : List StayCandidate)
      → env.now w.calls ≡ some now
      → Loaded env w value w2
      → value.booking ≡ some b
      → All (IsOffer env now (names_of w2.state.cottage_names) number_of_nights) all
      → ((c : StayCandidate)
          → All (AtMost c) all
          → AllHeard env now number_of_nights c (names_of w2.state.cottage_names))
      → w3.state ≡ w2.state
      → Ensures
          (λ _. SelectsStay env w)
          ((expect (selected_of (unique_stay_candidates (sort_stable all))) no_suitable_period
              >>= λ selected. save env (choose value b selected))
            w3)
  execute_end w w2 w3 now value b all clock l hb offers covers same =
      expect-Ensures (λ _. SelectsStay env w)
        (selected_of (unique_stay_candidates (sort_stable all))) no_suitable_period _ w3
        λ chosen e.
          Ensures-weaken (λ _. Saved env w3 (choose value b chosen)) (λ _. SelectsStay env w)
            (save env (choose value b chosen) w3)
            (λ _ w' s. record {
              now = now;
              clock = clock;
              old = l.payload;
              old_kept = l.kept;
              value = value;
              old_read = l.decoded;
              booking = b;
              has_booking = hb;
              chosen = chosen;
              best =
                  subst (λ names. AllHeard env now number_of_nights chosen (names_of names))
                    (ap (λ (st : State). st.cottage_names) l.same_state)
                    (covers chosen
                      (IsBest-All chosen all (subst (IsBest all) e (selection-IsBest all))));
              offer =
                  subst (λ names. IsOffer env now (names_of names) number_of_nights chosen)
                    (ap (λ (st : State). st.cottage_names) l.same_state)
                    (All-selected _ (sort_stable all) chosen (All-sort_stable _ all offers) e);
              new = s.payload;
              new_kept =
                  subst (λ k. lookup k w'.store ≡ some s.payload)
                    (key_of-keyed w w3 (same ∙ l.same_state)) (Saved-kept env w3 _ w' s);
              new_written = s.encoded;
              same_state = s.same_state ∙ keyed-keyed w w3 (same ∙ l.same_state);
            })
            (save-Saved env (choose value b chosen) w3)

  -- A load behind the call of the clock.
  Loaded-calls :
      (w : World P) (n : ℕ) (v : GuestJourneyCacheValue) (w' : World P)
      → Loaded env (record w { calls = n }) v w'
      → Loaded env w v w'
  Loaded-calls w n v w' l = record {
    payload = l.payload;
    kept = l.kept;
    decoded = l.decoded;
    same_store = l.same_store;
    same_sent = l.same_sent;
    same_state = l.same_state;
  }

  pub execute-Ensures : (w : World P) → Ensures (λ _. SelectsStay env w) (execute env w)
  unfolding execute
  execute-Ensures w =
      let w1 : World P = record w { calls = suc w.calls } in
      follow_set-Ensures (λ _. SelectsStay env w) env.clock_set _ w
        (expect-Ensures (λ _. SelectsStay env w) (env.now w.calls) clock_failed _ w1
          λ now clock.
            bind-Ensures (Loaded env w1) (λ _. SelectsStay env w) (load env w1) _
              (load-Loaded env w1)
              λ value w2 l.
                expect-Ensures (λ _. SelectsStay env w) value.booking invalid_booking_context _ w2
                  λ b hb.
                    reject_if-Ensures (λ _. SelectsStay env w)
                      (not (some_cottages w2.state.cottage_names)) cottage_names_is_empty _ w2
                      λ some_names.
                        bind-Ensures _ (λ _. SelectsStay env w)
                          (collect_stay_candidates env now number_of_nights w2) _
                          (collect-Collects env now (names_of w2.state.cottage_names)
                            number_of_nights w2 refl)
                          λ cs w3 (all, offers, covers, read, state, store).
                            subst
                              (λ l.
                                Ensures (λ _. SelectsStay env w)
                                  ((expect (selected_of l) no_suitable_period >>= λ selected.
                                      save env (choose value b selected))
                                    w3))
                              (sym read)
                              (execute_end w w2 w3 now value b all clock
                                (Loaded-calls w _ value w2 l) hb offers covers state))
