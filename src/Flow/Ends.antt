-- ===== src/Flow/Ends.antt =====
-- On `runStepGraph`: a measure that bounds its rounds.
use kenshu_elaris_project_gu.Prelude.{
  All, Bool-cases, List, Option, arith, inl, inr, none, some, suc, zero, ℕ, ◌<◌, ◌≢◌,
}
use kenshu_elaris_project_gu.Flow.{Finish, Graph, draw, resume, run_step_graph, transition, visit}
use kenshu_elaris_project_gu.Selector.{WeightedTuple, pick_random_weighted}
use kenshu_elaris_project_gu.Selector.Picks.{pick_random_weighted-All}
use kenshu_elaris_project_gu.World.{Env, Outcome, World, err, ok, panics, pure}
use kenshu_elaris_project_gu.World.Rules.{Ensures, bind-Ensures, deref-Ensures}

-- What holds of the step that a visit goes on to.
abbrev StepTo : {S : Type 0} → (S → Type 0) → Option S → Type 0
StepTo Q none = Unit {0}
StepTo Q (some t) = Q t

-- What holds of every step that an entry of the graph lists.
abbrev pub Lists : {S : Type 0} → (S → Type 0) → Option (List (WeightedTuple S)) → Type 0
Lists Q none = Unit {0}
Lists Q (some items) = All (λ item. Q item.value) items

anything : {P A : Type 0} (r : Outcome A × World P) → Ensures (λ _ _. Unit {0}) r
anything (ok a, w) = tt
anything (err e, w) = tt
anything (panics, w) = tt

module _ {P S : Type 0} (env : Env P) (graph : Graph P S) where
  transition-StepTo :
      (Q : S → Type 0) (next : Option (List (WeightedTuple S))) (w : World P)
      → Lists Q next
      → Ensures (λ o _. StepTo Q o) (transition env graph next w)
  unfolding transition draw
  transition-StepTo Q none w h = tt
  transition-StepTo Q (some items) w h =
      deref-Ensures (λ o _. StepTo Q o) (pick_random_weighted (env.rand_float w.calls) items)
        (λ s. pure (some s)) _
        λ s e. pick_random_weighted-All Q (env.rand_float w.calls) items s h e

  visit-StepTo :
      (Q : S → Type 0) (s : S) (w : World P)
      → Lists Q (graph.next s)
      → Ensures (λ o _. StepTo Q o) (visit env graph s w)
  unfolding visit
  visit-StepTo Q s w h =
      bind-Ensures (λ _ _. Unit {0}) (λ o _. StepTo Q o) (graph.validate s w) _
        (anything (graph.validate s w))
        λ _ w1 _.
          bind-Ensures (λ _ _. Unit {0}) (λ o _. StepTo Q o) (graph.execute s w1) _
            (anything (graph.execute s w1)) λ _ w2 _. transition-StepTo Q (graph.next s) w2 h

  resume-ends :
      (again : S → World P → Finish P) (Q : S → Type 0) (r : Outcome (Option S) × World P)
      → Ensures (λ o _. StepTo Q o) r
      → ((t : S) (w : World P) → Q t → again t w ≢ none)
      → resume again r.0 r.1 ≢ none
  resume-ends again Q (ok none, w) h k = λ e. cc
  resume-ends again Q (ok (some t), w) h k = k t w h
  resume-ends again Q (err x, w) h k = λ e. cc
  resume-ends again Q (panics, w) h k = λ e. cc

  -- If every step lists steps of lower rank alone, then a flow that starts at a step ends within
  -- one round more than its rank.
  pub run-ends :
      (rank : S → ℕ) (fuel : ℕ) (s : S) (w : World P)
      → ((r : S) → Lists (λ t. rank t < rank r) (graph.next r))
      → rank s < fuel
      → run_step_graph env graph fuel s w ≢ none
  unfolding run_step_graph
  run-ends rank zero s w lower h = λ _. omega (arith, h)
  run-ends rank (suc fuel) s w lower h =
      let w1 : World P = record w { calls = suc w.calls } in
      elim (Bool-cases (env.canceled w.calls)) [
        | inl e ↦ rw (run_step_graph, e) (λ n. cc)
        | inr e ↦
            rw (run_step_graph, e)
              (resume-ends (run_step_graph env graph fuel) (λ t. rank t < rank s)
                (visit env graph s w1) (visit-StepTo (λ t. rank t < rank s) s w1 (lower s))
                (λ t w2 k. run-ends rank fuel t w2 lower (omega (arith, h, k))))
      ]
