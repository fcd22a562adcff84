-- ===== src/BookingFlow/Panics.antt =====
-- On the booking flow: panics, and the list of cottages that they depend on.
use kenshu_elaris_project_gu.ListCottages
use kenshu_elaris_project_gu.SelectCottage
use kenshu_elaris_project_gu.SelectPeriod
use kenshu_elaris_project_gu.BookCottage
use kenshu_elaris_project_gu.Prelude.{
  arith, get_elem?, inl, inr, is_some, length, refl, some, subst, sym, true, ℕ, ◌<◌, ◌≡◌, ◌≢◌, ◌⊎◌,
}
use kenshu_elaris_project_gu.BookCottage.Once.{Booked, book-Ensures}
use kenshu_elaris_project_gu.BookingFlow.{
  BookingStep, book_cottage, default_booking_flow, end, execute_step, list_cottages,
  new_booking_flow, select_cottage, select_period, start, state_map, validate_step,
}
use kenshu_elaris_project_gu.BookingFlow.Returns.{
  Returns, book-Returns, list-Returns, same_world, select_cottage-Returns, select_period-Returns,
}
use kenshu_elaris_project_gu.Cache.{load, save}
use kenshu_elaris_project_gu.Cache.Effects.{Loaded, Saved, keyed, load-Loaded, save-Saved}
use kenshu_elaris_project_gu.Domain.{State}
use kenshu_elaris_project_gu.Flow.{run_step_graph, transition, visit}
use kenshu_elaris_project_gu.Flow.Walk.{
  AtEnd, Carries, bind-Carries, draw-Carries, failure, run-AtEnd, ticked,
}
use kenshu_elaris_project_gu.SelectPeriod.{names_of}
use kenshu_elaris_project_gu.SelectPeriod.Execute.{SelectsStay, execute-Ensures}
use kenshu_elaris_project_gu.Wiring.{Wiring}
use kenshu_elaris_project_gu.World.{Env, Outcome, World, continue, err, ok, panics, rand_intn}
use kenshu_elaris_project_gu.World.Rules.{
  Ensures, Ensures-at, Ensures-weaken, bind-Ensures, deref-Ensures, follow_set-Ensures,
  rand_intn_same, read_reply-Ensures,
}

module _ {P : Type 0} (env : Env P) (d : Wiring) (set : env.http_client_set ≡ true)
    (timed : env.clock_set ≡ true) where
  -- The list of cottages has been loaded, at every step that uses it.
  abbrev Listed : BookingStep → World P → Type 0
  Listed list_cottages w = Unit {0}
  Listed select_cottage w = is_some w.state.cottage_names ≡ true
  Listed select_period w = is_some w.state.cottage_names ≡ true
  Listed book_cottage w = is_some w.state.cottage_names ≡ true
  Listed end w = Unit {0}

  -- A state that has a list keeps it through a step.
  abbrev HasList : Unit {0} → World P → Type 0
  HasList _ w = is_some w.state.cottage_names ≡ true

  validate_world : (s : BookingStep) (w : World P) → (validate_step env d s w).1 ≡ w
  unfolding validate_step ListCottages.validate SelectCottage.validate SelectPeriod.validate
      BookCottage.validate
  validate_world list_cottages w = ground arith
  validate_world select_cottage w = ground arith
  validate_world select_period w = ground arith
  validate_world book_cottage w = ground arith
  validate_world end w = refl

  validate-Returns : (s : BookingStep) (w : World P) → Returns (validate_step env d s w)
  unfolding validate_step ListCottages.validate SelectCottage.validate SelectPeriod.validate
      BookCottage.validate
  validate-Returns list_cottages w p = ground (arith, p)
  validate-Returns select_cottage w p = ground (arith, p)
  validate-Returns select_period w p = ground (arith, p)
  validate-Returns book_cottage w p = ground (arith, p)
  validate-Returns end w p = cc

  -- What the test of the selection step lets through has a name to draw.
  validated_names :
      (w : World P)
      → is_some w.state.cottage_names ≡ true
      → (validate_step env d select_cottage w).0 ≡ ok tt
      → 0 < length (SelectPeriod.names_of w.state.cottage_names)
  unfolding validate_step SelectCottage.validate
  validated_names w h e = ground (arith, h, e)

  execute-Returns :
      (s : BookingStep) (w : World P)
      → Listed s w
      → (validate_step env d s w).0 ≡ ok tt
      → Returns (execute_step env d s w)
  unfolding execute_step
  execute-Returns list_cottages w h v = list-Returns env w set
  execute-Returns select_cottage w h v = select_cottage-Returns env w (validated_names w h v)
  execute-Returns select_period w h v = select_period-Returns env w set timed
  execute-Returns book_cottage w h v = book-Returns env w set
  execute-Returns end w h v = λ p. cc

  keyed_list :
      (w w' : World P)
      → is_some w.state.cottage_names ≡ true
      → w'.state ≡ keyed w
      → is_some w'.state.cottage_names ≡ true
  keyed_list w w' h e = subst (λ (st : State). is_some st.cottage_names ≡ true) (sym e) h

  select_cottage-HasList :
      (w : World P)
      → is_some w.state.cottage_names ≡ true
      → Ensures HasList (SelectCottage.execute env w)
  unfolding SelectCottage.execute
  select_cottage-HasList w h =
      let names = SelectPeriod.names_of w.state.cottage_names in
      let w1 : World P = (rand_intn env (length names) w).1 in
      let drawn : is_some w1.state.cottage_names ≡ true =
        subst (λ (st : State). is_some st.cottage_names ≡ true)
          (sym (rand_intn_same env (length names) w).1) h in
      bind-Ensures (λ _ x. x ≡ w1) HasList (rand_intn env (length names) w) _ (same_world _)
        λ i x e. deref-Ensures HasList (get_elem? names i) _ x λ selected _.
          bind-Ensures (Loaded env x) HasList (load env x) _ (load-Loaded env x) λ value y l.
            Ensures-weaken (λ _. Saved env y _) HasList (save env _ y)
              (λ _ z s.
                keyed_list y z
                  (keyed_list x y
                    (subst (λ (u : World P). is_some u.state.cottage_names ≡ true) (sym e) drawn)
                    l.same_state)
                  s.same_state)
              (save-Saved env _ y)

  execute-HasList :
      (s : BookingStep) (w : World P)
      → Listed s w
      → s ≢ end
      → Ensures HasList (execute_step env d s w)
  unfolding execute_step ListCottages.execute
  execute-HasList list_cottages w h n =
      follow_set-Ensures HasList env.http_client_set _ w
        (read_reply-Ensures HasList (env.cottages w.calls) _ _ λ cs _. refl)
  execute-HasList select_cottage w h n = select_cottage-HasList w h
  execute-HasList select_period w h n =
      Ensures-weaken (λ _. SelectsStay env w) HasList (SelectPeriod.execute env w)
        (λ _ x s. keyed_list w x h s.same_state) (execute-Ensures env w)
  execute-HasList book_cottage w h n =
      Ensures-weaken (λ _. Booked env w) HasList (BookCottage.execute env w)
        (λ _ x s. keyed_list w x h s.same_state) (book-Ensures env w)
  execute-HasList end w h n = absurd (n refl)

  abbrev Fine : Outcome (Unit {0}) → World P → Type 0
  Fine o w = o ≢ panics

  transition-Listed :
      (s : BookingStep) (w : World P)
      → (s ≡ end) ⊎ (is_some w.state.cottage_names ≡ true)
      → Carries Listed Fine
          (transition env (new_booking_flow env d) (state_map default_booking_flow s) w).0
          (transition env (new_booking_flow env d) (state_map default_booking_flow s) w).1
  unfolding transition state_map default_booking_flow
  transition-Listed end w h = λ p. cc
  transition-Listed list_cottages w (inl e) = cc
  transition-Listed list_cottages w (inr h) =
      draw-Carries env (new_booking_flow env d) Listed Fine _ _ w (h, (tt, tt))
  transition-Listed select_cottage w (inl e) = cc
  transition-Listed select_cottage w (inr h) =
      draw-Carries env (new_booking_flow env d) Listed Fine _ _ w (h, (tt, (tt, tt)))
  transition-Listed select_period w (inl e) = cc
  transition-Listed select_period w (inr h) =
      draw-Carries env (new_booking_flow env d) Listed Fine _ _ w (h, (h, (tt, (h, (tt, tt)))))
  transition-Listed book_cottage w (inl e) = cc
  transition-Listed book_cottage w (inr h) =
      draw-Carries env (new_booking_flow env d) Listed Fine _ _ w (tt, tt)

  is_end : (s : BookingStep) → (s ≡ end) ⊎ (s ≢ end)
  is_end end = inl refl
  is_end list_cottages = inr (λ e. cc)
  is_end select_cottage = inr (λ e. cc)
  is_end select_period = inr (λ e. cc)
  is_end book_cottage = inr (λ e. cc)

  Listed-after :
      (s : BookingStep) (w : World P)
      → Listed s w
      → (execute_step env d s w).0 ≡ ok tt
      → (s ≡ end) ⊎ (is_some (execute_step env d s w).1.state.cottage_names ≡ true)
  Listed-after s w h e = elim (is_end s) [
    | inl last ↦ inl last
    | inr more ↦ inr (Ensures-at HasList (execute_step env d s w) e (execute-HasList s w h more))
  ]

  Listed-tick : (s : BookingStep) (w : World P) → Listed s w → Listed s (ticked w)
  Listed-tick list_cottages w h = tt
  Listed-tick select_cottage w h = h
  Listed-tick select_period w h = h
  Listed-tick book_cottage w h = h
  Listed-tick end w h = tt

  failure_Fine :
      (r : Outcome (Unit {0}) × World P)
      → Returns r
      → (o : Outcome (Unit {0})) → failure r.0 ≡ some o
      → o ≢ panics
  failure_Fine (ok a, w) h o f = cc
  failure_Fine (err e, w) h o f = λ p. cc
  failure_Fine (panics, w) h o f = absurd (h refl)

  visit-Listed :
      (s : BookingStep) (w : World P)
      → Listed s w
      → Carries Listed Fine
          (visit env (new_booking_flow env d) s (ticked w)).0
          (visit env (new_booking_flow env d) s (ticked w)).1
  unfolding visit new_booking_flow
  visit-Listed s w h =
      let w1 : World P = ticked w in
      bind-Carries Listed Fine (validate_step env d s w1) _
        (failure_Fine (validate_step env d s w1) (validate-Returns s w1))
        λ _ valid.
          let listed : Listed s w1 = Listed-tick s w h in
          subst
            (λ (v : World P).
              Carries Listed Fine
                (continue (execute_step env d s v).0
                  (λ _. transition env (new_booking_flow env d) (state_map default_booking_flow s))
                  (execute_step env d s v).1).0
                (continue (execute_step env d s v).0
                  (λ _. transition env (new_booking_flow env d) (state_map default_booking_flow s))
                  (execute_step env d s v).1).1)
            (sym (validate_world s w1))
            (bind-Carries Listed Fine (execute_step env d s w1) _
              (failure_Fine (execute_step env d s w1) (execute-Returns s w1 listed valid))
              λ _ done.
                transition-Listed s (execute_step env d s w1).1 (Listed-after s w1 listed done))

  -- If its steps were given their HTTP clients and the clock, a booking flow from its start does not
  -- panic, however it ends.
  pub run-Returns :
      (fuel : ℕ) (w : World P)
      → AtEnd (λ o _. o ≢ panics) (run_step_graph env (new_booking_flow env d) fuel start w)
  run-Returns fuel w =
      run-AtEnd env (new_booking_flow env d) Listed Fine (λ s v h p. cc) visit-Listed fuel start w
        tt
