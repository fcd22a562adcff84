-- ===== src/Cache/Laws.antt =====
-- On the cache: its key, its map and its codec.
use kenshu_elaris_project_gu.Prelude.{
  List, [], arith, if◌then◌else◌, none, refl, some, ◌++◌, ◌∷◌, ◌≡◌,
}
use kenshu_elaris_project_gu.Cache.{erase, insert, lookup}
use kenshu_elaris_project_gu.Domain.{GuestJourneyCacheValue}
use kenshu_elaris_project_gu.GoText.{Text, is_empty, text, text_eq, text_eq_iff}
use kenshu_elaris_project_gu.World.{Env, World}

module _ {P : Type 0} where
  pub lookup-insert :
      (k j : Text) (p : P) (m : List (Text × P))
      → lookup j (insert k p m) ≡ (if text_eq k j then some p else lookup j m)
  unfolding lookup insert
  lookup-insert k j p [] = refl
  lookup-insert k j p ((i, q) ∷ m) =
      ground (arith, text_eq_iff k j, text_eq_iff i k, text_eq_iff i j, lookup-insert k j p m)

  pub lookup-erase :
      (k j : Text) (m : List (Text × P))
      → lookup j (erase k m) ≡ (if text_eq k j then none else lookup j m)
  unfolding lookup erase
  lookup-erase k j [] = ground arith
  lookup-erase k j ((i, q) ∷ m) =
      ground (arith, text_eq_iff k j, text_eq_iff i k, text_eq_iff i j, lookup-erase k j m)

-- The key that the next operation uses.
abbrev pub key_of : {P : Type 0} → World P → Text
key_of w =
    if is_empty w.state.redis_key then text "guest." ++ w.state.guest_id else w.state.redis_key

-- What `json.Unmarshal` makes of a text that `json.Marshal` wrote is the value that was written.
abbrev pub RoundTrips : {P : Type 0} → Env P → Type 0
RoundTrips {P} env =
    (v : GuestJourneyCacheValue) (p : P) → env.marshal v ≡ some p → env.unmarshal p ≡ some v
