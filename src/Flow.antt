-- ===== src/Flow.antt =====
-- internal/app/flows/flow.go: a flow walks a graph of steps, drawing each next step by weight.
pub mod Walk
pub mod Ends
pub mod Spends
use kenshu_elaris_project_gu.Prelude.{List, Option, false, none, some, suc, true, zero, ℕ, ◌%◌}
use kenshu_elaris_project_gu.Selector.{WeightedTuple, pick_random_weighted}
use kenshu_elaris_project_gu.World.{
  Action, Env, Outcome, World, ask, deref, err, ok, panics, pure, ◌>>=◌, ◌>>◌,
}

-- A step of a flow, `steps.Step`, and the flow's `stateMap` at it. A missing or nil entry is `none`.
pub record Graph (P S : Type 0) : Type 0 where
  pub validate : S → Action P (Unit {0})
  pub execute : S → Action P (Unit {0})
  pub next : S → Option (List (WeightedTuple S))

-- How a flow ends: `none` stands for fuel that ran out.
abbrev pub Finish : Type 0 → Type 0
Finish P = Option (Outcome (Unit {0}) × World P)

module _ {P S : Type 0} where
  abbrev pub resume : (S → World P → Finish P) → Outcome (Option S) → World P → Finish P
  resume again (ok none) w = some (ok tt, w)
  resume again (ok (some step)) w = again step w
  resume again (err e) w = some (err e, w)
  resume again panics w = some (panics, w)

module _ {P S : Type 0} (env : Env P) (graph : Graph P S) where
  -- `services.PickRandomWeighted(nextStep)`
  unfoldable pub draw : List (WeightedTuple S) → Action P (Option S)
  draw list = do r ← ask env.rand_float; s ← deref (pick_random_weighted r list); pure (some s)

  -- What follows a step: nothing, if its entry is nil.
  unfoldable pub transition : Option (List (WeightedTuple S)) → Action P (Option S)
  transition none = pure none
  transition (some list) = draw list

  -- One round of the loop behind the test of the context: validate, execute, choose.
  unfoldable pub visit : S → Action P (Option S)
  visit step = do graph.validate step; graph.execute step; transition (graph.next step)

  -- `runStepGraph` from a step, the zero step being a no-op. `none` means that the fuel, a bound on
  -- the rounds, ran out; a canceled context ends the flow with nil.
  unfoldable pub run_step_graph : ℕ → S → World P → Finish P
  run_step_graph zero step w = none
  run_step_graph (suc fuel) step w =
      let w1 : World P = record w { calls = suc w.calls } in
      elim (env.canceled w.calls) [
        | true ↦ some (ok tt, w1)
        | false ↦ resume (run_step_graph fuel) (visit step w1).0 (visit step w1).1
      ]
