-- ===== src/Witness/Leaving.antt =====
-- The theorems on the cache entry and on the cleanup, at a journey that has a cache entry and an open channel.
use kenshu_elaris_project_gu.Prelude.{false, inr, refl, true, ◌≡◌}
use kenshu_elaris_project_gu.Cache.{del, erase, get, lookup}
use kenshu_elaris_project_gu.Domain.{GuestJourneyCacheValue}
use kenshu_elaris_project_gu.GoText.{text_eq}
use kenshu_elaris_project_gu.JourneyCache.{
  cleanup_guest_journey, close_communication, delete_state_cache, log_state_cache,
}
use kenshu_elaris_project_gu.JourneyCache.Cleaned.{Forgets, cleanup_guest_journey-Forgets}
use kenshu_elaris_project_gu.JourneyCache.Synced.{Synced}
use kenshu_elaris_project_gu.Witness.Data.{all_set, invoiced_value, services, world_with}
use kenshu_elaris_project_gu.World.{World, ok}

abbrev leaver : World GuestJourneyCacheValue
leaver = world_with invoiced_value

leaving_runs : (cleanup_guest_journey services all_set true true leaver).0.0 ≡ ok tt
unfolding cleanup_guest_journey log_state_cache delete_state_cache close_communication get del erase
    lookup text_eq
leaving_runs = refl

cleanup_guest_journey-Forgets_example :
    Forgets services all_set leaver (cleanup_guest_journey services all_set true true leaver).0.1
    × ((cleanup_guest_journey services all_set true true leaver).1 ≡ false)
cleanup_guest_journey-Forgets_example =
    cleanup_guest_journey-Forgets services all_set true true leaver (inr leaving_runs)
