-- ===== src/Cache.antt =====
-- internal/infra/redis/cache.go over a Redis server: the guest's cached journey under one key.
pub mod Laws
pub mod Effects
use kenshu_elaris_project_gu.Prelude.{
  List, Option, [], if◌then◌else◌, none, not, some, suc, ◌++◌, ◌∷◌,
}
use kenshu_elaris_project_gu.Domain.{GuestJourneyCacheValue}
use kenshu_elaris_project_gu.GoText.{Text, is_empty, text, text_eq}
use kenshu_elaris_project_gu.World.{
  Action, Env, Outcome, done, err, expect, guest_id_is_empty, lost_reply, lost_request,
  marshal_failed, ok, redis_client_is_nil, redis_failed, redis_nil, reject_if, unmarshal_failed,
  ◌>>=◌, ◌>>◌,
}

-- The server's GET, SET and DEL on its keys.
module _ {P : Type 0} where
  unfoldable pub lookup : Text → List (Text × P) → Option P
  lookup k [] = none
  lookup k ((j, p) ∷ m) = if text_eq j k then some p else lookup k m

  unfoldable pub insert : Text → P → List (Text × P) → List (Text × P)
  insert k p [] = (k, p) ∷ []
  insert k p ((j, q) ∷ m) = if text_eq j k then (k, p) ∷ m else (j, q) ∷ insert k p m

  unfoldable pub erase : Text → List (Text × P) → List (Text × P)
  erase k [] = []
  erase k ((j, q) ∷ m) = let rest = erase k m in if text_eq j k then rest else (j, q) ∷ rest

module _ {P : Type 0} (env : Env P) where
  -- One command: what it does to the server, and its answer if that arrives.
  command :
      {A : Type 0}
      → (List (Text × P) → List (Text × P))
      → (List (Text × P) → Outcome A)
      → Action P A
  command change answer w = elim (env.redis w.calls) [
    | done ↦ (answer w.store, record w { calls = suc w.calls; store = change w.store })
    | lost_request ↦ (err redis_failed, record w { calls = suc w.calls })
    | lost_reply ↦ (err redis_failed, record w { calls = suc w.calls; store = change w.store })
  ]

  abbrev found : Option P → Outcome P
  found none = err redis_nil
  found (some p) = ok p

  -- `Cache.Set`, `Cache.Get`, `Cache.Del`
  unfoldable pub set : Text → P → Action P (Unit {0})
  unfolding command
  set k p = do
    reject_if (not env.redis_client) redis_client_is_nil
    command (insert k p) (λ _. ok tt)

  unfoldable pub get : Text → Action P P
  unfolding command
  get k = do
    reject_if (not env.redis_client) redis_client_is_nil
    command (λ m. m) (λ m. found (lookup k m))

  unfoldable pub del : Text → Action P (Unit {0})
  unfolding command
  del k = do reject_if (not env.redis_client) redis_client_is_nil; command (erase k) (λ _. ok tt)

  -- `Cache.EnsureKey`
  unfoldable pub ensure_key : Action P Text
  ensure_key w =
      if is_empty w.state.redis_key
      then (if is_empty w.state.guest_id
          then (err guest_id_is_empty, w)
          else (let key = text "guest." ++ w.state.guest_id in
              (ok key, record w { state = record (w.state) { redis_key = key } })))
      else (ok w.state.redis_key, w)

  -- `Cache.Load`
  unfoldable pub load : Action P GuestJourneyCacheValue
  load = do
    reject_if (not env.redis_client) redis_client_is_nil
    key ← ensure_key
    payload ← get key
    expect (env.unmarshal payload) unmarshal_failed

  -- `Cache.Save`
  unfoldable pub save : GuestJourneyCacheValue → Action P (Unit {0})
  save value = do
    reject_if (not env.redis_client) redis_client_is_nil
    key ← ensure_key
    payload ← expect (env.marshal value) marshal_failed
    set key payload
