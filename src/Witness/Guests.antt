-- ===== src/Witness/Guests.antt =====
-- The theorems on registering and on the short flows, at a guest whose journey is cached.
use kenshu_elaris_project_gu.RegisterGuest
use kenshu_elaris_project_gu.Prelude.{refl, ◌≡◌}
use kenshu_elaris_project_gu.Cache.{ensure_key, get, insert, load, lookup, save, set}
use kenshu_elaris_project_gu.Domain.{GuestJourneyCacheValue}
use kenshu_elaris_project_gu.GoText.{text_eq}
use kenshu_elaris_project_gu.RegisterGuest.Registered.{Registered, execute-Registered}
use kenshu_elaris_project_gu.Witness.Data.{services, unbooked_value, world_with}
use kenshu_elaris_project_gu.World.{World, ok}

abbrev newcomer : World GuestJourneyCacheValue
newcomer = world_with unbooked_value

register_runs :
    RegisterGuest.execute services newcomer ≡ (ok tt, (RegisterGuest.execute services newcomer).1)
unfolding RegisterGuest.execute load save get set ensure_key lookup insert text_eq
register_runs = refl

execute-Registered_example :
    Registered services newcomer (RegisterGuest.execute services newcomer).1
execute-Registered_example =
    execute-Registered services newcomer (RegisterGuest.execute services newcomer).1 register_runs
