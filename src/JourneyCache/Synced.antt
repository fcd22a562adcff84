-- ===== src/JourneyCache/Synced.antt =====
-- What a synchronisation of the cache entry leaves.
use kenshu_elaris_project_gu.Prelude.{some, ◌≡◌}
use kenshu_elaris_project_gu.Cache.{lookup}
use kenshu_elaris_project_gu.Cache.Effects.{keyed}
use kenshu_elaris_project_gu.Cache.Laws.{key_of}
use kenshu_elaris_project_gu.Domain.{GuestJourneyCacheValue, State}
use kenshu_elaris_project_gu.JourneyCache.{guest_or}
use kenshu_elaris_project_gu.Wiring.{Wiring}
use kenshu_elaris_project_gu.World.{Env, World}

module _ {P : Type 0} (env : Env P) (d : Wiring) where
  -- The value kept, with the identity of the state.
  abbrev pub synced : State → GuestJourneyCacheValue → GuestJourneyCacheValue
  synced s value = record value {
    guest_id = s.guest_id;
    personal_info = guest_or s.guest value.personal_info;
  }

  pub record Synced (w w' : World P) : Type 0 where
    pub old : P
    pub value : GuestJourneyCacheValue
    pub old_kept : lookup (key_of w) w.store ≡ some old
    pub old_read : env.unmarshal old ≡ some value
    pub new : P
    pub new_kept : lookup (key_of w) w'.store ≡ some new
    pub new_written : env.marshal (synced w.state value) ≡ some new
    pub same_state : w'.state ≡ keyed w
    pub none_sent : w'.sent ≡ w.sent
