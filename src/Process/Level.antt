-- ===== src/Process/Level.antt =====
-- On `runJourneys`: the number of its journeys.
use kenshu_elaris_project_gu.Prelude.{arith, refl, suc, zero, ℕ, ◌+◌, ◌<◌, ◌≡◌, ◌≤◌}
use kenshu_elaris_project_gu.Process.{
  Journeys, Runs, Turn, begins, ends, finishes, goes, no_journeys, restarts, start_journey,
  start_journeys,
}

-- Every journey of the level runs or has left its notification, and since the first journeys one was
-- started for each notification that was taken.
abbrev pub AtLevel : ℕ → Journeys → Type 0
AtLevel level j = (j.running + j.notifications ≡ level) × (level ≤ j.launched)

start_journeys-running :
    (n : ℕ) (j : Journeys)
    → ((start_journeys n j).running ≡ j.running + n)
      × ((start_journeys n j).notifications ≡ j.notifications)
      × ((start_journeys n j).launched ≡ j.launched + n)
unfolding start_journeys start_journey
start_journeys-running zero j = (omega arith, refl, omega arith)
start_journeys-running (suc n) j =
    let (r, s, l) = start_journeys-running n (start_journey j) in
    (omega (arith, r), s, omega (arith, l))

Turn-AtLevel : {level : ℕ} {j j' : Journeys} → Turn level j j' → AtLevel level j → AtLevel level j'
unfolding start_journey
Turn-AtLevel (finishes n e room) (h, l) = (omega (arith, e, h), l)
Turn-AtLevel (restarts n o e) (h, l) = (omega (arith, e, h), omega (arith, l))
Turn-AtLevel ends h = h

Runs-Level : {level : ℕ} {j : Journeys} → Runs level j → AtLevel level j
Runs-Level {level = level} begins =
    let (r, s, l) = start_journeys-running level no_journeys in
    (omega (arith, r, s), omega (arith, l))
Runs-Level (goes runs turn) = Turn-AtLevel turn (Runs-Level runs)

-- In every state that the loop comes to, the journeys that run and the notifications in the channel
-- are together as many as the concurrency level; so a journey that ends always finds room for its
-- notification, and no goroutine is left behind in its send.
pub Runs-AtLevel :
    {level : ℕ} {j : Journeys}
    → Runs level j
    → AtLevel level j × ((n : ℕ) → j.running ≡ suc n → j.notifications < level)
Runs-AtLevel runs = let (h, l) = Runs-Level runs in ((h, l), λ n e. omega (arith, h, e))
