-- ===== src/Witness/Processes.antt =====
-- The theorems on the process and on the message queue, at a start that fails and one that does not.
use kenshu_elaris_project_gu.Prelude.{
  [], arith, false, if◌then◌else◌, ltb, none, refl, some, suc, true, ℕ, ◌*◌, ◌+◌, ◌<◌, ◌∷◌, ◌≡◌,
  ◌≤◌, ◌⊎◌,
}
use kenshu_elaris_project_gu.Process.{
  Boot, Journeys, RabbitStart, Runs, begins, finishes, goes, main, no_journeys, restarts,
  start_journey, start_journeys,
}
use kenshu_elaris_project_gu.Process.Closed.{FailedIn, ShutDown, boot_stages, main_ends}
use kenshu_elaris_project_gu.Process.Level.{AtLevel, Runs-AtLevel}
use kenshu_elaris_project_gu.Rabbit.{
  Broker, Rabbit, close, connection_closed, made, open_connection, refused, refused_lost,
}
use kenshu_elaris_project_gu.Rabbit.Dials.{
  behind_all, close-StaysClosed, consumes, loses_channel, opens,
}
use kenshu_elaris_project_gu.World.{clock_failed, close_failed}

abbrev quiet_rabbit : RabbitStart
quiet_rabbit = record {
  connects = none;
  opens_channel = none;
  declares = none;
  binds = none;
  closes_connection = none;
  closes_channel = some close_failed;
}

-- The clock cannot be made.
abbrev boot : Boot
boot = record {
  configs = none;
  telemetry_init = none;
  rabbit = quiet_rabbit;
  ping = none;
  clock_init = some clock_failed;
  time_events = none;
  closes_telemetry = none;
  closes_redis = none;
  closes_clock = none;
}

main_ends_example : ShutDown boot ⊎ FailedIn (boot_stages boot) (main boot)
main_ends_example = main_ends boot

-- Two journeys, of which one ends and is replaced.
abbrev two_journeys : Journeys
two_journeys = start_journeys 2 no_journeys

replaced : Runs 2 (
    start_journey
      (record (record two_journeys { running = 1; notifications = 1 }) { notifications = 0 }))
unfolding start_journeys start_journey
replaced = goes (goes begins (finishes 1 refl (omega arith))) (restarts 0 refl refl)

Runs-AtLevel_example :
    AtLevel 2 (
      start_journey
        (record (record two_journeys { running = 1; notifications = 1 }) { notifications = 0 }))
    × ((n : ℕ)
        → (start_journey (record (record two_journeys { running = 1; notifications = 1 }) {
          notifications = 0;
        })).running
          ≡ suc n
        → (start_journey (record (record two_journeys { running = 1; notifications = 1 }) {
          notifications = 0;
        })).notifications
          < 2)
Runs-AtLevel_example = Runs-AtLevel replaced

-- A server whose third dial succeeds, and that loses the connection at the first request.
abbrev server : Broker
server = record {
  dials = λ n. ltb 1 n;
  channels = λ n. if ltb n 1 then refused_lost else made;
  declares = λ _ cfg. some cfg.name;
  binds = λ _ _ _. true;
  consumes = λ _ _. true;
  closes = λ _. true;
}

abbrev unconnected : Rabbit
unconnected = record {
  conn = none;
  closed_flag = false;
  channel = none;
  queue = [];
  dialed = 0;
  asked = 0;
  slept = 0;
}

close-StaysClosed_example :
    ((behind_all server (opens ∷ []) unconnected).dialed ≤ 0 + 10 * 1)
    × ((behind_all server
          (loses_channel ∷ consumes ∷ [])
          (close server (behind_all server (opens ∷ []) unconnected)).1).dialed
        ≡ (behind_all server (opens ∷ []) unconnected).dialed)
    × ((open_connection server (
          behind_all server
            (loses_channel ∷ consumes ∷ [])
            (close server (behind_all server (opens ∷ []) unconnected)).1)).0
        ≡ refused connection_closed)
close-StaysClosed_example =
    close-StaysClosed server (opens ∷ []) (loses_channel ∷ consumes ∷ []) unconnected
