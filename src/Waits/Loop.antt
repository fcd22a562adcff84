-- ===== src/Waits/Loop.antt =====
-- On the waiting loop: how it ends, and what it takes from the bus.
use kenshu_elaris_project_gu.Prelude.{
  List, [], arith, length, length-append, suc, ℕ, ◌++◌, ◌+◌, ◌<◌, ◌∷◌, ◌≡◌, ◌≤◌,
}
use kenshu_elaris_project_gu.Waits.{
  Round, Signal, Waited, bus_ended, context_ended, on_pending, on_signal, or_else, received, wait,
}
use kenshu_elaris_project_gu.World.{Action, Outcome, World, err, ok, panics}

-- If the wait succeeded, the last thing that it did was a match that succeeded.
abbrev pub EndsInMatch :
    {P M : Type 0} → (M → Action P (Unit {0})) → Outcome (Unit {0}) × World P → Type 0
EndsInMatch {P} {M} matches (ok u, w') = (m : M) × (w : World P) × (matches m w ≡ (ok tt, w'))
EndsInMatch matches (err e, w') = Unit {0}
EndsInMatch matches (panics, w') = Unit {0}

module _ {P M : Type 0} (matches : M → Action P (Unit {0})) where
  -- At most one kept message a round.
  module _ (n : ℕ) where
    abbrev Leaves : ℕ → Waited P M → Type 0
    Leaves rounds r = n ≤ length r.1 + rounds

    or_else-Leaves :
        (r : Outcome (Unit {0}) × World P) (kept : List M) (more : World P → Waited P M) (t : ℕ)
        → n ≤ length kept + t
        → ((w1 : World P) → Leaves t (more w1))
        → Leaves t (or_else matches r kept more)
    or_else-Leaves (ok u, w1) kept more t e k = e
    or_else-Leaves (err x, w1) kept more t e k = k w1
    or_else-Leaves (panics, w1) kept more t e k = e

    on_pending-Leaves :
        (l : List M) (select : List M → World P → Waited P M) (w : World P) (t u : ℕ)
        → t < u
        → n ≤ length l + t
        → ((k : List M) (w1 : World P) → n ≤ length k + suc t → Leaves u (select k w1))
        → Leaves u (on_pending matches l select w)
    on_pending-Leaves [] select w t u i e h = h [] w (omega (arith, e))
    on_pending-Leaves (m ∷ kept) select w t u i e h =
        or_else-Leaves (matches m w) kept (select kept) u (omega (arith, i, e))
          (λ w1. h kept w1 (omega (arith, e)))

    on_signal-Leaves :
        (s : Signal M) (again : World P → Waited P M) (kept : List M) (w : World P) (t : ℕ)
        → n ≤ length kept + t
        → ((w1 : World P) → Leaves t (again w1))
        → Leaves t (on_signal matches s again kept w)
    on_signal-Leaves context_ended again kept w t e h = e
    on_signal-Leaves (bus_ended x) again kept w t e h = e
    on_signal-Leaves (received m) again kept w t e h = or_else-Leaves (matches m w) kept again t e h

    wait-Leaves :
        (rounds : List (Round M)) (kept : List M) (w : World P) (t : ℕ)
        → n ≤ length kept + t
        → Leaves (t + suc (length rounds)) (wait matches rounds kept w)
    unfolding wait
    wait-Leaves [] kept w t e =
        on_pending-Leaves kept _ w t (t + 1) (omega arith) e (λ k w1 h. omega (arith, h))
    wait-Leaves (r ∷ rounds) kept w t e =
        on_pending-Leaves (kept ++ r.queued) _ w t (t + suc (suc (length rounds))) (omega arith)
          (omega (arith, e, length-append kept r.queued))
          λ k w1 h.
            on_signal-Leaves r.signal (wait matches rounds k) k w1 (t + suc (suc (length rounds)))
              (omega (arith, h))
              λ w2. let again = wait-Leaves rounds k w2 (suc t) h in omega (arith, again)

  -- However long the bus has kept messages, the wait takes at most one of them in each round, and a
  -- round ends only with an event from outside: with n events at most n + 1 kept messages are tried.
  pub wait_takes_one_a_round :
      (rounds : List (Round M)) (kept : List M) (w : World P)
      → length kept ≤ length (wait matches rounds kept w).1 + suc (length rounds)
  wait_takes_one_a_round rounds kept w =
      let left = wait-Leaves (length kept) rounds kept w 0 (omega arith) in omega (arith, left)
