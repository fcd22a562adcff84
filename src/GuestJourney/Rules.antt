-- ===== src/GuestJourney/Rules.antt =====
-- Rules for the stages of a journey: what holds at their end, and what they add to a number read off
-- the requests sent.
use kenshu_elaris_project_gu.Prelude.{List, arith, none, refl, some, ℕ, ◌+◌, ◌≤◌}
use kenshu_elaris_project_gu.Bus.{run}
use kenshu_elaris_project_gu.Flow.{Finish}
use kenshu_elaris_project_gu.Flow.Walk.{AtEnd}
use kenshu_elaris_project_gu.GuestJourney.{
  Arrivals, Ended, Journey, Stage, act, flow, flowed, go_on, wait_for, ◌>>◌,
}
use kenshu_elaris_project_gu.Quiet.{Quiet}
use kenshu_elaris_project_gu.Waits.{wait}
use kenshu_elaris_project_gu.Waits.Quiet.{wait-Kept}
use kenshu_elaris_project_gu.World.{Action, Outcome, Request, World, err, ok, panics}

-- What holds of the end of a journey, if it ends.
abbrev pub AtJourneyEnd :
    {P : Type 0} → (Outcome (Unit {0}) → Journey P → Type 0) → Ended P → Type 0
AtJourneyEnd Q none = Unit {0}
AtJourneyEnd Q (some (o, j)) = Q o j

module _ {P : Type 0} (f : List Request → ℕ) where
  -- Whatever its outcome, the stage adds at most `n`.
  unfoldable pub StageAdds : ℕ → Stage P → Type 0
  StageAdds n m =
      (j : Journey P) → AtJourneyEnd (λ _ j'. f j'.world.sent ≤ f j.world.sent + n) (m j)

  pub AtJourneyEnd-mono :
      (a b : ℕ) (e : Ended P)
      → a ≤ b
      → AtJourneyEnd (λ _ j. f j.world.sent ≤ a) e
      → AtJourneyEnd (λ _ j. f j.world.sent ≤ b) e
  AtJourneyEnd-mono a b none h k = tt
  AtJourneyEnd-mono a b (some (o, j)) h k = omega (arith, h, k)

  go_on-Adds :
      (c n a b : ℕ) (e : Ended P) (m : Stage P)
      → a + b ≤ n
      → AtJourneyEnd (λ _ j. f j.world.sent ≤ c + a) e
      → StageAdds b m
      → AtJourneyEnd (λ _ j. f j.world.sent ≤ c + n) (go_on e m)
  unfolding StageAdds
  go_on-Adds c n a b none m l h k = tt
  go_on-Adds c n a b (some (ok u, j)) m l h k =
      AtJourneyEnd-mono (f j.world.sent + b) (c + n) (m j) (omega (arith, l, h)) (k j)
  go_on-Adds c n a b (some (err x, j)) m l h k = omega (arith, l, h)
  go_on-Adds c n a b (some (panics, j)) m l h k = omega (arith, l, h)

  pub stage-Adds :
      (n a b : ℕ) (m k : Stage P) → a + b ≤ n → StageAdds a m → StageAdds b k → StageAdds n (m >> k)
  unfolding StageAdds ◌>>◌
  stage-Adds n a b m k l h g j = go_on-Adds (f j.world.sent) n a b (m j) k l (h j) g

  pub act-Adds : (a : Action P (Unit {0})) → Quiet f a → StageAdds 0 (act a)
  unfolding StageAdds
  act-Adds a h j = omega (arith, h j.world)

  flowed-Adds :
      (n : ℕ) (r : Finish P) (j : Journey P)
      → AtEnd (λ _ w'. f w'.sent ≤ f j.world.sent + n) r
      → AtJourneyEnd (λ _ j'. f j'.world.sent ≤ f j.world.sent + n) (flowed r j)
  flowed-Adds n none j h = tt
  flowed-Adds n (some (o, w)) j h = h

  pub flow-Adds :
      (n : ℕ) (run : World P → Finish P)
      → ((w : World P) → AtEnd (λ _ w'. f w'.sent ≤ f w.sent + n) (run w))
      → StageAdds n (flow run)
  unfolding StageAdds
  flow-Adds n run h j = flowed-Adds n (run j.world) j (h j.world)

  pub wait_for-Adds :
      {M : Type 0} (matches : M → Action P (Unit {0})) (a : Arrivals M)
      → ((m : M) → Quiet f (matches m))
      → StageAdds 0 (wait_for (wait matches) a)
  unfolding StageAdds
  wait_for-Adds matches a h j =
      let kept = wait-Kept f matches h (f j.world.sent) a.rounds a.kept j.world refl in
      omega (arith, kept)
