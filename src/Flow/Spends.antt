-- ===== src/Flow/Spends.antt =====
-- On `runStepGraph`: a bound on a number read off the requests sent.
use kenshu_elaris_project_gu.Prelude.{
  List, Option, Option-cases, arith, inl, inr, none, some, ℕ, ◌+◌, ◌-◌, ◌≤◌,
}
use kenshu_elaris_project_gu.Flow.{Graph, draw, run_step_graph, transition, visit}
use kenshu_elaris_project_gu.Flow.Ends.{Lists}
use kenshu_elaris_project_gu.Flow.Walk.{AtEnd, Carries, bind-Carries, run-AtEnd, ticked}
use kenshu_elaris_project_gu.Quiet.{Quiet}
use kenshu_elaris_project_gu.Selector.{WeightedTuple, pick_random_weighted}
use kenshu_elaris_project_gu.Selector.Picks.{pick_random_weighted-All}
use kenshu_elaris_project_gu.World.{Env, Outcome, Request, World}

-- `f` counts requests; a step may add `cost` to it, and behind it `left` may still be added.
module _ {P S : Type 0} (env : Env P) (graph : Graph P S) (f : List Request → ℕ) (cost left : S → ℕ)
    (validates : (s : S) → Quiet f (graph.validate s))
    (executes : (s : S) (w : World P) → f (graph.execute s w).1.sent ≤ f w.sent + cost s)
    (affords : (s : S) → cost s ≤ left s)
    (descends : (s : S) → Lists (λ t. left t ≤ left s - cost s) (graph.next s)) where
  abbrev Bounded : ℕ → S → World P → Type 0
  Bounded k s w = f w.sent + left s ≤ k

  abbrev Within : ℕ → Outcome (Unit {0}) → World P → Type 0
  Within k o w = f w.sent ≤ k

  transition-Bounded :
      (k n : ℕ) (next : Option (List (WeightedTuple S))) (w : World P)
      → Lists (λ t. left t ≤ n) next
      → f w.sent + n ≤ k
      → Carries
          (Bounded k)
          (Within k)
          (transition env graph next w).0
          (transition env graph next w).1
  unfolding transition draw
  transition-Bounded k n none w h b = omega (arith, b)
  transition-Bounded k n (some items) w h b =
      elim (Option-cases (pick_random_weighted (env.rand_float w.calls) items)) [
        | inl e ↦ rw e (omega (arith, b))
        | inr (s, e) ↦
            let low = pick_random_weighted-All (λ t. left t ≤ n) _ items s h e in
            rw e (omega (arith, b, low))
      ]

  visit-Bounded :
      (k : ℕ) (s : S) (w : World P)
      → Bounded k s w
      → Carries
          (Bounded k)
          (Within k)
          (visit env graph s (ticked w)).0
          (visit env graph s (ticked w)).1
  unfolding visit
  visit-Bounded k s w h =
      let same = validates s (ticked w) in
      let v : World P = (graph.validate s (ticked w)).1 in
      let spent = executes s v in
      let enough = affords s in
      bind-Carries (Bounded k) (Within k) (graph.validate s (ticked w)) _
        (λ o _. omega (arith, same, h))
        λ _ _.
          bind-Carries (Bounded k) (Within k) (graph.execute s v) _
            (λ o _. omega (arith, spent, same, enough, h))
            λ _ _.
              transition-Bounded k (left s - cost s) (graph.next s) (graph.execute s v).1
                (descends s) (omega (arith, spent, same, enough, h))

  -- A flow that has ended has added no more than what was left to its first step.
  pub run-Spends :
      (fuel : ℕ) (s : S) (w : World P)
      → AtEnd (λ o w'. f w'.sent ≤ f w.sent + left s) (run_step_graph env graph fuel s w)
  run-Spends fuel s w =
      let k = f w.sent + left s in
      run-AtEnd env graph (Bounded k) (Within k) (λ t v h. omega (arith, h)) (visit-Bounded k) fuel
        s w (omega arith)
