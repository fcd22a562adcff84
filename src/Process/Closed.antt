-- ===== src/Process/Closed.antt =====
-- On the shutdown: what is closed, and in which order.
use kenshu_elaris_project_gu.Prelude.{
  All, List, Option, [], ap, inl, inr, map, none, refl, some, subst, sym, take, ◌++◌, ◌↔◌, ◌∙◌, ◌∷◌,
  ◌≡◌, ◌≢◌, ◌⊎◌,
}
use kenshu_elaris_project_gu.Process.{
  Boot, Cleanup, Ending, Resource, clock, error_of, exit_on_error, exited, join, main, main_cleanup,
  new_rabbitmq, new_redis_client, probe_server, rabbit_connection, redis_client, run_cleanup,
  shut_down, telemetry,
}
use kenshu_elaris_project_gu.TimeEvents.Faithful.{held}
use kenshu_elaris_project_gu.World.{Error}

abbrev resources : List Cleanup → List Resource
resources cleanup = map (λ c. c.resource) cleanup

-- Every cleanup function returns nil.
abbrev pub AllSucceed : List Cleanup → Type 0
AllSucceed cleanup = All (λ c. c.fails ≡ none) cleanup

join-none : (a b : Option Error) → (join a b ≡ none) ↔ ((a ≡ none) × (b ≡ none))
unfolding join
join-none none b = ((λ h. (refl, h)), (λ (_, h). h))
join-none (some a) none = ((λ h. cc), (λ (h, _). cc))
join-none (some a) (some b) = ((λ h. cc), (λ (h, _). cc))

run_cleanup-errors :
    (cleanup : List Cleanup) → ((run_cleanup cleanup).1 ≡ none) ↔ AllSucceed cleanup
unfolding run_cleanup
run_cleanup-errors [] = ((λ _. tt), (λ _. refl))
run_cleanup-errors (c ∷ cleanup) =
    let both = join-none (run_cleanup cleanup).1 c.fails in
    let rest = run_cleanup-errors cleanup in
    ((λ h. ((both.0 h).1, rest.0 (both.0 h).0)), λ (one, others). both.1 (rest.1 others, one))

-- The steps of `main` that can fail, each with what is open when it does.
abbrev pub boot_stages : Boot → List (Option Error × List Resource)
boot_stages b =
    (b.configs, [])
    ∷ (b.telemetry_init, [])
    ∷ (error_of (new_rabbitmq b.rabbit), telemetry ∷ [])
    ∷ (error_of (new_redis_client b.ping b.closes_redis), telemetry ∷ rabbit_connection ∷ [])
    ∷ (b.clock_init, telemetry ∷ rabbit_connection ∷ redis_client ∷ [])
    ∷ (b.time_events, telemetry ∷ rabbit_connection ∷ redis_client ∷ clock ∷ probe_server ∷ [])
    ∷ []

-- The process ran to its end, and has closed everything, the latest first.
pub record ShutDown (b : Boot) : Type 0 where
  pub booted : All (λ s. s.0 ≡ none) (boot_stages b)
  pub error : Option Error
  pub ended :
      main b
      ≡ shut_down (probe_server ∷ clock ∷ redis_client ∷ rabbit_connection ∷ telemetry ∷ [], error)
  pub no_error : (error ≡ none) ↔ AllSucceed (main_cleanup b)

-- The first step that failed ended the process, with what was open then.
pub record FailedIn (stages : List (Option Error × List Resource)) (r : Ending) : Type 0 where
  pub before : List (Option Error × List Resource)
  pub stage : Option Error × List Resource
  pub after : List (Option Error × List Resource)
  pub split : stages ≡ before ++ (stage ∷ after)
  pub passed : All (λ s. s.0 ≡ none) before
  pub failed : stage.0 ≢ none
  pub ended : r ≡ exited stage.1

closes_in_order :
    (b : Boot)
    → (run_cleanup (main_cleanup b)).0
      ≡ probe_server ∷ clock ∷ redis_client ∷ rabbit_connection ∷ telemetry ∷ []
unfolding run_cleanup main_cleanup
closes_in_order b = refl

FailedIn-more :
    (s : Option Error × List Resource) (stages : List (Option Error × List Resource)) (r : Ending)
    → s.0 ≡ none
    → FailedIn stages r
    → FailedIn (s ∷ stages) r
FailedIn-more s stages r e f = record {
  before = s ∷ f.before;
  stage = f.stage;
  after = f.after;
  split = ap (λ l. s ∷ l) f.split;
  passed = (e, f.passed);
  failed = f.failed;
  ended = f.ended;
}

-- The stages one after the other, and what follows them.
unfoldable stages_ending : List (Option Error × List Resource) → Ending → Ending
stages_ending [] last = last
stages_ending ((none, held) ∷ stages) last = stages_ending stages last
stages_ending ((some e, held) ∷ stages) last = exited held

stages_ending-FailedIn :
    (stages : List (Option Error × List Resource)) (last : Ending)
    → (All (λ s. s.0 ≡ none) stages × (stages_ending stages last ≡ last))
      ⊎ FailedIn stages (stages_ending stages last)
unfolding stages_ending
stages_ending-FailedIn [] last = inl (tt, refl)
stages_ending-FailedIn ((some e, held) ∷ stages) last = inr (record {
  before = [];
  stage = (some e, held);
  after = stages;
  split = refl;
  passed = tt;
  failed = λ h. cc;
  ended = refl;
})
stages_ending-FailedIn ((none, held) ∷ stages) last = elim (stages_ending-FailedIn stages last) [
  | inl (passed, e) ↦ inl ((refl, passed), e)
  | inr f ↦ inr (FailedIn-more (none, held) stages _ refl f)
]

exit_on_error-stage :
    (o : Option Error) (cleanup : List Cleanup) (more : Ending)
    (stages : List (Option Error × List Resource)) (last : Ending)
    → more ≡ stages_ending stages last
    → exit_on_error o cleanup more ≡ stages_ending ((o, resources cleanup) ∷ stages) last
unfolding stages_ending
exit_on_error-stage none cleanup more stages last e = e
exit_on_error-stage (some x) cleanup more stages last e = refl

main-stages :
    (b : Boot) → main b ≡ stages_ending (boot_stages b) (shut_down (run_cleanup (main_cleanup b)))
unfolding main main_cleanup stages_ending
main-stages b =
    let cleanup = main_cleanup b in
    let last = shut_down (run_cleanup cleanup) in
    let rabbit = error_of (new_rabbitmq b.rabbit) in
    let redis = error_of (new_redis_client b.ping b.closes_redis) in
    let late = (b.time_events, resources (take 5 cleanup)) ∷ [] in
    let timed = (b.clock_init, resources (take 3 cleanup)) ∷ late in
    let cached = (redis, resources (take 2 cleanup)) ∷ timed in
    exit_on_error-stage b.configs [] _ _ last (
      exit_on_error-stage b.telemetry_init [] _ _ last (
        exit_on_error-stage rabbit (take 1 cleanup) _ cached last (
          exit_on_error-stage redis (take 2 cleanup) _ timed last (
            exit_on_error-stage b.clock_init (take 3 cleanup) _ late last
              (exit_on_error-stage b.time_events (take 5 cleanup) last [] last refl)))))

-- If every step of the start succeeds, the process ends by closing the probe server, the clock, the
-- Redis client, RabbitMQ and the telemetry, in this order, each whatever the others return, and
-- the error is nil exactly if none of them fails. If a step fails, the process exits at the first
-- that does, and the deferred cleanup does not run: nothing is open when the configuration or the
-- telemetry fails, the telemetry stays open when RabbitMQ fails, and then also RabbitMQ when Redis
-- fails, Redis when the clock fails, and the clock and the probe server when the time events fail.
pub main_ends : (b : Boot) → ShutDown b ⊎ FailedIn (boot_stages b) (main b)
main_ends b =
    elim (stages_ending-FailedIn (boot_stages b) (shut_down (run_cleanup (main_cleanup b)))) [
      | inl (booted, e) ↦ inl (record {
        booted = booted;
        error = (run_cleanup (main_cleanup b)).1;
        ended =
            main-stages b
            ∙ e
            ∙ ap (λ l. shut_down (l, (run_cleanup (main_cleanup b)).1)) (closes_in_order b);
        no_error = run_cleanup-errors (main_cleanup b);
      })
      | inr f ↦ inr (subst (λ r. FailedIn (boot_stages b) r) (sym (main-stages b)) f)
    ]
