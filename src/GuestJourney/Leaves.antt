-- ===== src/GuestJourney/Leaves.antt =====
-- On a whole journey: what it leaves behind.
use kenshu_elaris_project_gu.Prelude.{
  Bool, ap, false, inl, inr, none, refl, some, sym, ◌∙◌, ◌≡◌, ◌⊎◌,
}
use kenshu_elaris_project_gu.Cache.{lookup}
use kenshu_elaris_project_gu.Domain.{State}
use kenshu_elaris_project_gu.GuestJourney.{
  Ended, Journey, Stage, Surroundings, cleaned, cleanup_stage, deferred, go_on, join_cleanup,
  journey_body, start_journey, ◌>>◌,
}
use kenshu_elaris_project_gu.GuestJourney.Rules.{AtJourneyEnd}
use kenshu_elaris_project_gu.JourneyCache.{cleanup_guest_journey}
use kenshu_elaris_project_gu.JourneyCache.Cleaned.{
  cleanup_guest_journey-Forgets, cleanup_guest_journey-state,
}
use kenshu_elaris_project_gu.Wiring.{Wiring}
use kenshu_elaris_project_gu.World.{Env, Error, Outcome, World, err, joined, ok, panics}

-- Redis has no entry under the journey's key, and the bus has no consumer.
abbrev pub Freed : {P : Type 0} → Journey P → Type 0
Freed j = (lookup j.world.state.redis_key j.world.store ≡ none) × (j.line.listening ≡ false)

-- The errors of a journey and of its cleanup, joined.
abbrev pub IsJoined : Error → Type 0
IsJoined e = (first : Error) × (second : Error) × (e ≡ joined first second)

-- What a journey leaves, by its outcome.
abbrev pub Left : {P : Type 0} → Outcome (Unit {0}) → Journey P → Type 0
Left (ok u) j = Freed j
Left (err e) j = Freed j ⊎ IsJoined e
Left panics j = Unit {0}

abbrev OkEnd : {P : Type 0} → (Journey P → Type 0) → Outcome (Unit {0}) → Journey P → Type 0
OkEnd Q (ok u) j = Q j
OkEnd Q (err e) j = Unit {0}
OkEnd Q panics j = Unit {0}

module _ {P : Type 0} (Q : Journey P → Type 0) where
  -- A stage that satisfies `Q` wherever it succeeds.
  unfoldable Makes : Stage P → Type 0
  Makes m = (j : Journey P) → AtJourneyEnd (OkEnd Q) (m j)

  go_on-Makes : (e : Ended P) (m : Stage P) → Makes m → AtJourneyEnd (OkEnd Q) (go_on e m)
  unfolding Makes
  go_on-Makes none m h = tt
  go_on-Makes (some (ok u, j)) m h = h j
  go_on-Makes (some (err e, j)) m h = tt
  go_on-Makes (some (panics, j)) m h = tt

  -- The last stage decides.
  stage-Makes : (m k : Stage P) → Makes k → Makes (m >> k)
  unfolding Makes ◌>>◌
  stage-Makes m k h j = go_on-Makes (m j) k h

module _ {P : Type 0} (env : Env P) (d : Wiring) (around : Surroundings) where
  cleaned-Freed :
      (j : Journey P) (can_close : Bool) (r : (Outcome (Unit {0}) × World P) × Bool)
      → r ≡ cleanup_guest_journey env d can_close j.line.listening j.world
      → OkEnd Freed r.0.0 (cleaned env d around j r)
  cleaned-Freed j can_close ((ok u, w), listening) e =
      let run = cleanup_guest_journey env d can_close j.line.listening j.world in
      let succeeds : run.0.0 ≡ ok tt = ap (λ r. r.0.0) (sym e) in
      let forgets =
        cleanup_guest_journey-Forgets env d can_close j.line.listening j.world (inr succeeds) in
      let key : w.state.redis_key ≡ j.world.state.redis_key =
        ap (λ r. r.0.1.state.redis_key) e
        ∙ ap (λ (s : State). s.redis_key)
            (cleanup_guest_journey-state env d can_close j.line.listening j.world succeeds) in
      (
        ap (λ k. lookup k w.store) key
            ∙ ap (λ r. lookup j.world.state.redis_key r.0.1.store) e
            ∙ forgets.0.1,
        ap (λ r. r.1) e ∙ forgets.1,
      )
  cleaned-Freed j can_close ((err x, w), listening) e = tt
  cleaned-Freed j can_close ((panics, w), listening) e = tt

  cleanup_stage-Makes : Makes Freed (cleanup_stage env d around)
  unfolding Makes cleanup_stage
  cleanup_stage-Makes j = cleaned-Freed j (around.can_close j.cleanups) _ refl

  body-Makes : Makes Freed (journey_body env d around)
  unfolding journey_body
  body-Makes = stage-Makes Freed _ _ (
      stage-Makes Freed _ _ (
        stage-Makes Freed _ _ (
          stage-Makes Freed _ _
            (stage-Makes Freed _ _ (stage-Makes Freed _ _ cleanup_stage-Makes)))))

  join_cleanup-Left :
      (e : Error) (r : Ended P)
      → AtJourneyEnd (OkEnd Freed) r
      → AtJourneyEnd Left (join_cleanup env d around e r)
  join_cleanup-Left e none h = tt
  join_cleanup-Left e (some (ok u, j)) h = inl h
  join_cleanup-Left e (some (err c, j)) h = inr (e, c, refl)
  join_cleanup-Left e (some (panics, j)) h = tt

  deferred-Left :
      (r : Ended P) → AtJourneyEnd (OkEnd Freed) r → AtJourneyEnd Left (deferred env d around r)
  unfolding Makes
  deferred-Left none h = tt
  deferred-Left (some (ok u, j)) h = h
  deferred-Left (some (err e, j)) h =
      join_cleanup-Left e (cleanup_stage env d around j) (cleanup_stage-Makes j)
  deferred-Left (some (panics, j)) h = tt

  -- A journey that has ended without a panic has no entry left in Redis under its key, and its bus
  -- has no consumer, be its outcome nil or an error, unless the cleanup behind the error has failed
  -- too, and then the error that it returns joins the two.
  pub start_journey-Left : (j : Journey P) → AtJourneyEnd Left (start_journey env d around j)
  unfolding start_journey Makes
  start_journey-Left j = deferred-Left (journey_body env d around j) (body-Makes j)
