-- ===== src/Process.antt =====
-- internal/main.go and internal/infra/init.go: what the process opens, in which order it closes it, and how it
-- keeps its number of journeys.
pub mod Closed
pub mod Level
use kenshu_elaris_project_gu.Prelude.{
  Bool, List, Option, [], false, map, none, some, suc, take, true, zero, ℕ, ◌++◌, ◌<◌, ◌∷◌, ◌≡◌,
}
use kenshu_elaris_project_gu.World.{Error, joined}

-- What the process opens.
pub data Resource : Type 0 where
  telemetry rabbit_connection rabbit_channel redis_client clock probe_server : Resource

-- A cleanup function: the resource that it closes, and the error that it returns.
pub record Cleanup : Type 0 where
  pub resource : Resource
  pub fails : Option Error

-- `errors.Join`, which leaves nil out
unfoldable pub join : Option Error → Option Error → Option Error
join none e = e
join (some a) none = some a
join (some a) (some b) = some (joined a b)

-- The resources that were closed, the latest last, and the error.
abbrev pub Shutdown : Type 0
Shutdown = List Resource × Option Error

-- One round of the loop of `runCleanup`
abbrev pub close_one : Cleanup → Shutdown → Shutdown
close_one c (shut, e) = (shut ++ (c.resource ∷ []), join e c.fails)

-- `runCleanup`, from the last function to the first
unfoldable pub run_cleanup : List Cleanup → Shutdown
run_cleanup [] = ([], none)
run_cleanup (c ∷ cleanup) = close_one c (run_cleanup cleanup)

-- `NewRabbitmq`: which of its steps fail, and the errors of its cleanup functions.
pub record RabbitStart : Type 0 where
  pub connects : Option Error
  pub opens_channel : Option Error
  pub declares : Option Error
  pub binds : Option Error
  pub closes_connection : Option Error
  pub closes_channel : Option Error

-- How a start ends: with its cleanup functions, in the order of opening, or with an error behind
-- which the resources were closed.
pub data Started : Type 0 where
  started : List Cleanup → Started
  gave_up : Error → List Resource → Started

-- `if err != nil { _ = runCleanup(ctx, cleanup); return err }`
abbrev pub or_give_up : Option Error → List Cleanup → Started → Started
or_give_up none cleanup more = more
or_give_up (some e) cleanup more = gave_up e (run_cleanup cleanup).0

abbrev pub connection_cleanup : RabbitStart → List Cleanup
connection_cleanup r = record { resource = rabbit_connection; fails = r.closes_connection } ∷ []

abbrev pub channel_cleanup : RabbitStart → List Cleanup
channel_cleanup r =
    connection_cleanup r ++ (record { resource = rabbit_channel; fails = r.closes_channel } ∷ [])

-- `NewRabbitmq`
unfoldable pub new_rabbitmq : RabbitStart → Started
new_rabbitmq r = or_give_up r.connects [] (
    or_give_up r.opens_channel (connection_cleanup r) (
      or_give_up r.declares (channel_cleanup r)
        (or_give_up r.binds (channel_cleanup r) (started (channel_cleanup r)))))

-- `NewRedisClient`: the client is closed if its ping fails.
unfoldable pub new_redis_client : Option Error → Option Error → Started
new_redis_client ping closes =
    let cleanup = record { resource = redis_client; fails = closes } ∷ [] in
    or_give_up ping cleanup (started cleanup)

-- `ConnectionClose`: both functions of `NewRabbitmq` under one.
abbrev pub close_rabbit : RabbitStart → Option Error
close_rabbit r = (run_cleanup (channel_cleanup r)).1

-- Which steps of `main` fail, and the errors of its cleanup functions.
pub record Boot : Type 0 where
  pub configs : Option Error
  pub telemetry_init : Option Error
  pub rabbit : RabbitStart
  pub ping : Option Error
  pub clock_init : Option Error
  pub time_events : Option Error
  pub closes_telemetry : Option Error
  pub closes_redis : Option Error
  pub closes_clock : Option Error

-- How the process ends: `os.Exit(1)` with what is still open, which runs no deferred function, or
-- the end of `main` with what it closed.
pub data Ending : Type 0 where
  exited : List Resource → Ending
  shut_down : Shutdown → Ending

-- `exitOnError`, with the cleanup functions appended so far
abbrev pub exit_on_error : Option Error → List Cleanup → Ending → Ending
exit_on_error none cleanup more = more
exit_on_error (some e) cleanup more = exited (map (λ c. c.resource) cleanup)

abbrev pub error_of : Started → Option Error
error_of (started cleanup) = none
error_of (gave_up e shut) = some e

-- The cleanup functions that `main` appends, in their order.
unfoldable pub main_cleanup : Boot → List Cleanup
main_cleanup b =
    record { resource = telemetry; fails = b.closes_telemetry }
    ∷ record { resource = rabbit_connection; fails = close_rabbit b.rabbit }
    ∷ record { resource = redis_client; fails = b.closes_redis }
    ∷ record { resource = clock; fails = b.closes_clock }
    ∷ record { resource = probe_server; fails = none }
    ∷ []

-- `main`; the journeys run between the last test and the shutdown.
unfoldable pub main : Boot → Ending
main b =
    let cleanup = main_cleanup b in
    exit_on_error b.configs [] (
      exit_on_error b.telemetry_init [] (
        exit_on_error (error_of (new_rabbitmq b.rabbit)) (take 1 cleanup) (
          exit_on_error (error_of (new_redis_client b.ping b.closes_redis)) (take 2 cleanup) (
            exit_on_error b.clock_init (take 3 cleanup)
              (exit_on_error b.time_events (take 5 cleanup) (shut_down (run_cleanup cleanup)))))))

-- `runJourneys`: how many journeys run, how many notifications stand in the channel, whether `select`
-- has seen the end of the context, and how many journeys were started.
pub record Journeys : Type 0 where
  pub running : ℕ
  pub notifications : ℕ
  pub over : Bool
  pub launched : ℕ

-- `startJourney`
unfoldable pub start_journey : Journeys → Journeys
start_journey j = record j { running = suc j.running; launched = suc j.launched }

-- The loop that starts the first journeys.
unfoldable pub start_journeys : ℕ → Journeys → Journeys
start_journeys zero j = j
start_journeys (suc n) j = start_journeys n (start_journey j)

abbrev pub no_journeys : Journeys
no_journeys = record { running = 0; notifications = 0; over = false; launched = 0 }

-- What can happen behind it, with room for `level` notifications in the channel.
pub data Turn (level : ℕ) : Journeys → Journeys → Type 0 where
  finishes :
      {j : Journeys} (n : ℕ)
      → j.running ≡ suc n
      → j.notifications < level
      → Turn level j (record j { running = n; notifications = suc j.notifications })
  restarts :
      {j : Journeys} (n : ℕ)
      → j.over ≡ false
      → j.notifications ≡ suc n
      → Turn level j (start_journey (record j { notifications = n }))
  ends : {j : Journeys} → Turn level j (record j { over = true })

-- The states that `runJourneys` comes to at a concurrency level.
pub data Runs (level : ℕ) : Journeys → Type 0 where
  begins : Runs level (start_journeys level no_journeys)
  goes : {j j' : Journeys} → Runs level j → Turn level j j' → Runs level j'
