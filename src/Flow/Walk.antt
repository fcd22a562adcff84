-- ===== src/Flow/Walk.antt =====
-- On `runStepGraph`: invariants of the rounds.
use kenshu_elaris_project_gu.Prelude.{
  All, Bool, List, Option, Option-cases, [], false, inl, inr, none, refl, some, suc, true, zero, ℕ,
  ◌∷◌, ◌≡◌, ◌≢◌,
}
use kenshu_elaris_project_gu.Flow.{Finish, Graph, draw, resume, run_step_graph, visit}
use kenshu_elaris_project_gu.Selector.{WeightedTuple, pick_random_weighted}
use kenshu_elaris_project_gu.Selector.Picks.{pick_random_weighted-All, pick_random_weighted_total}
use kenshu_elaris_project_gu.World.{Action, Env, Outcome, World, continue, err, ok, panics}

-- What holds of the outcome of a flow and the world that it leaves, if it ends.
abbrev pub AtEnd : {P : Type 0} → (Outcome (Unit {0}) → World P → Type 0) → Finish P → Type 0
AtEnd Q none = Unit {0}
AtEnd Q (some (o, w)) = Q o w

module _ {P S : Type 0} where
  -- What a visit must leave: `Q` where the flow ends, `I` at the next step where it goes on.
  abbrev pub Carries :
      (S → World P → Type 0)
      → (Outcome (Unit {0}) → World P → Type 0)
      → Outcome (Option S)
      → World P
      → Type 0
  Carries I Q (ok none) w = Q (ok tt) w
  Carries I Q (ok (some s)) w = I s w
  Carries I Q (err e) w = Q (err e) w
  Carries I Q panics w = Q panics w

  resume-AtEnd :
      (I : S → World P → Type 0) (Q : Outcome (Unit {0}) → World P → Type 0)
      (again : S → World P → Finish P) (o : Outcome (Option S)) (w : World P)
      → ((s : S) (w : World P) → I s w → AtEnd Q (again s w))
      → Carries I Q o w
      → AtEnd Q (resume again o w)
  resume-AtEnd I Q again (ok none) w h c = c
  resume-AtEnd I Q again (ok (some s)) w h c = h s w c
  resume-AtEnd I Q again (err e) w h c = c
  resume-AtEnd I Q again panics w h c = c

-- The counter of the calls moves on.
abbrev pub ticked : {P : Type 0} → World P → World P
ticked w = record w { calls = suc w.calls }

module _ {P S : Type 0} (env : Env P) (graph : Graph P S) (I : S → World P → Type 0)
    (Q : Outcome (Unit {0}) → World P → Type 0)
    (ends : (s : S) (w : World P) → I s w → Q (ok tt) (ticked w))
    (keeps : (s : S) (w : World P)
      → I s w
      → Carries I Q (visit env graph s (ticked w)).0 (visit env graph s (ticked w)).1) where
  pub run-AtEnd :
      (fuel : ℕ) (s : S) (w : World P) → I s w → AtEnd Q (run_step_graph env graph fuel s w)
  unfolding run_step_graph
  run-AtEnd zero s w h = tt
  run-AtEnd (suc fuel) s w h = go (env.canceled w.calls) (run-AtEnd fuel)
    where
      go :
          (stop : Bool)
          → ((t : S) (v : World P) → I t v → AtEnd Q (run_step_graph env graph fuel t v))
          → AtEnd Q (elim stop [
            | true ↦ some (ok tt, ticked w)
            | false ↦
                resume
                  (run_step_graph env graph fuel)
                  (visit env graph s (ticked w)).0
                  (visit env graph s (ticked w)).1
          ])
      go true rest = ends s w h
      go false rest =
          resume-AtEnd I Q (run_step_graph env graph fuel) (visit env graph s (ticked w)).0
            (visit env graph s (ticked w)).1 rest (keeps s w h)

-- The outcome of a flow that one of its parts ends.
abbrev pub failure : {A : Type 0} → Outcome A → Option (Outcome (Unit {0}))
failure (ok a) = none
failure (err e) = some (err e)
failure panics = some panics

module _ {P S A : Type 0} (I : S → World P → Type 0)
    (Q : Outcome (Unit {0}) → World P → Type 0) where
  -- A part of a visit: its failure ends the flow, its success goes on.
  pub bind-Carries :
      (r : Outcome A × World P) (f : A → Action P (Option S))
      → ((o : Outcome (Unit {0})) → failure r.0 ≡ some o → Q o r.1)
      → ((a : A) → r.0 ≡ ok a → Carries I Q (f a r.1).0 (f a r.1).1)
      → Carries I Q (continue r.0 f r.1).0 (continue r.0 f r.1).1
  bind-Carries (ok a, w) f h k = k a refl
  bind-Carries (err e, w) f h k = h (err e) refl
  bind-Carries (panics, w) f h k = h panics refl

-- A draw goes on at one of the steps that are listed; it panics on the empty list alone.
module _ {P S : Type 0} (env : Env P) (graph : Graph P S) (I : S → World P → Type 0)
    (Q : Outcome (Unit {0}) → World P → Type 0) where
  pub draw-Carries :
      (item : WeightedTuple S) (items : List (WeightedTuple S)) (w : World P)
      → All (λ t. I t.value (ticked w)) (item ∷ items)
      → Carries I Q (draw env graph (item ∷ items) w).0 (draw env graph (item ∷ items) w).1
  unfolding draw
  draw-Carries item items w h =
      elim (Option-cases (pick_random_weighted (env.rand_float w.calls) (item ∷ items))) [
        | inl e ↦ absurd (item_ne_nil ((pick_random_weighted_total _ (item ∷ items)).0 e))
        | inr (s, e) ↦ rw e (pick_random_weighted-All (λ t. I t (ticked w)) _ (item ∷ items) s h e)
      ]
    where
      item_ne_nil : item ∷ items ≢ []
      item_ne_nil e = cc
