-- ===== src/JourneyCache.antt =====
-- internal/app/journey/journey_services/cache_service.go and cleanup_service.go, and `cleanupGuestJourney`
-- of internal/app/journey/guest_journey.go: what a journey does to its cache entry as a whole, and how it
-- takes leave. The state and the services of a journey are set when it is built.
pub mod Cleaned
pub mod Synced
use kenshu_elaris_project_gu.Prelude.{Bool, Option, [], false, none, not, some, true}
use kenshu_elaris_project_gu.Cache.{del, get, load, save}
use kenshu_elaris_project_gu.Domain.{Guest, GuestJourneyCacheValue}
use kenshu_elaris_project_gu.GoText.{is_empty}
use kenshu_elaris_project_gu.Lodging.Chat.{closed}
use kenshu_elaris_project_gu.Wiring.{Wiring}
use kenshu_elaris_project_gu.World.{
  Action, Env, Outcome, World, cache_is_nil, close_failed, err, expect, get_state,
  guest_id_is_empty, guest_is_nil, ok, panics, pure, redis_key_is_empty, reject_if, state_is_nil,
  ◌>>=◌, ◌>>◌,
}

abbrev empty_value : GuestJourneyCacheValue
empty_value = record { guest_id = []; personal_info = none; booking = none; invoice = none }

-- `if state.Guest != nil { current.PersonalInfo = state.Guest }`
abbrev pub guest_or : Option Guest → Option Guest → Option Guest
guest_or none old = old
guest_or (some g) old = some g

-- `CloseCommunication`, given whether the consumer's channel can be closed, on whether the bus has
-- a consumer.
unfoldable pub close_communication : Bool → Bool → Outcome (Unit {0}) × Bool
close_communication can_close false = (ok tt, false)
close_communication true true = (ok tt, false)
close_communication false true = (err close_failed, true)

module _ {P : Type 0} (env : Env P) (d : Wiring) where
  -- `InitializeStateCache`
  unfoldable pub initialize_state_cache : Action P (Unit {0})
  initialize_state_cache = do
    reject_if (not d.state_set) state_is_nil
    reject_if (not d.cache_set) cache_is_nil
    s ← get_state
    guest ← expect s.guest guest_is_nil
    reject_if (is_empty s.redis_key) redis_key_is_empty
    save env (record empty_value { personal_info = some guest })

  -- `SyncStateCache`
  unfoldable pub sync_state_cache : Action P (Unit {0})
  sync_state_cache = do
    reject_if (not d.state_set) state_is_nil
    reject_if (not d.cache_set) cache_is_nil
    s ← get_state
    reject_if (is_empty s.guest_id) guest_id_is_empty
    current ← load env
    save env (record current {
      guest_id = s.guest_id;
      personal_info = guest_or s.guest current.personal_info;
    })

  -- `LogStateCache`
  unfoldable pub log_state_cache : Action P (Unit {0})
  log_state_cache = do
    reject_if (not d.state_set) state_is_nil
    reject_if (not d.cache_set) cache_is_nil
    s ← get_state
    reject_if (is_empty s.redis_key) redis_key_is_empty
    _ ← get env s.redis_key
    pure tt

  -- `DeleteStateCache`
  unfoldable pub delete_state_cache : Action P (Unit {0})
  delete_state_cache = do
    reject_if (not d.state_set) state_is_nil
    reject_if (not d.cache_set) cache_is_nil
    s ← get_state
    reject_if (is_empty s.redis_key) redis_key_is_empty
    del env s.redis_key

  -- `CleanupState` behind the deletion
  abbrev pub then_close :
      Outcome (Unit {0}) × World P → Bool → Bool → (Outcome (Unit {0}) × World P) × Bool
  then_close (ok u, w) can_close listening =
      let closed = close_communication can_close listening in ((closed.0, w), closed.1)
  then_close (err e, w) can_close listening = ((err e, w), listening)
  then_close (panics, w) can_close listening = ((panics, w), listening)

  -- `cleanupGuestJourney`, with `CleanupState`
  unfoldable pub cleanup_guest_journey :
      Bool → Bool → World P → (Outcome (Unit {0}) × World P) × Bool
  cleanup_guest_journey can_close listening w =
      then_close ((log_state_cache >> delete_state_cache) w) can_close listening
