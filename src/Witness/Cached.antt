-- ===== src/Witness/Cached.antt =====
-- The theorems on the cache, at a guest whose journey is cached.
use kenshu_elaris_project_gu.Prelude.{refl, suc, sym, ◌≡◌}
use kenshu_elaris_project_gu.Cache.{ensure_key, insert, load, save, set}
use kenshu_elaris_project_gu.Cache.Effects.{load-save}
use kenshu_elaris_project_gu.Cache.Laws.{RoundTrips}
use kenshu_elaris_project_gu.Domain.{GuestJourneyCacheValue}
use kenshu_elaris_project_gu.GoText.{text_eq}
use kenshu_elaris_project_gu.Witness.Data.{invoiced_value, services, unbooked_value, world_with}
use kenshu_elaris_project_gu.World.{World, ok}

abbrev before : World GuestJourneyCacheValue
before = world_with unbooked_value

abbrev saved : World GuestJourneyCacheValue
saved = (save services invoiced_value before).1

save_runs : save services invoiced_value before ≡ (ok tt, saved)
unfolding save set ensure_key insert text_eq
save_runs = refl

services-round_trip : RoundTrips services
services-round_trip v p e = sym e

load-save_example :
    load services saved ≡ (ok invoiced_value, record saved { calls = suc saved.calls })
load-save_example =
    load-save services invoiced_value before saved services-round_trip save_runs refl
