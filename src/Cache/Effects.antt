-- ===== src/Cache/Effects.antt =====
-- What loading and saving do to the world: one lemma for the good path of each, and one for every
-- outcome. The other components use the cache through these.
use kenshu_elaris_project_gu.Prelude.{
  Bool-cases, Option-cases, ap, arith, false, inl, inr, none, not, refl, some, subst, suc, sym,
  true, ◌∙◌, ◌≡◌, ◌≢◌, ◌⊎◌,
}
use kenshu_elaris_project_gu.Cache.{ensure_key, get, insert, load, lookup, save, set}
use kenshu_elaris_project_gu.Cache.Laws.{RoundTrips, key_of, lookup-insert}
use kenshu_elaris_project_gu.Domain.{GuestJourneyCacheValue, State}
use kenshu_elaris_project_gu.GoText.{Text, is_empty, text_eq_iff}
use kenshu_elaris_project_gu.World.{
  Env, World, done, expect, marshal_failed, ok, unmarshal_failed, ◌>>=◌,
}
use kenshu_elaris_project_gu.World.Rules.{
  Ensures, Ensures-ok, Ensures-weaken, bind-Ensures, reject_if-Ensures,
}

-- The state that an operation leaves: the key has been filled in.
abbrev pub keyed : {P : Type 0} → World P → State
keyed w = record (w.state) { redis_key = key_of w }

-- The key stays what it is once it has been filled in.
pub key_of-keyed : {P : Type 0} (w w' : World P) → w'.state ≡ keyed w → key_of w' ≡ key_of w
key_of-keyed w w' e = rw e (ground arith)

pub keyed-keyed : {P : Type 0} (w w' : World P) → w'.state ≡ keyed w → keyed w' ≡ keyed w
keyed-keyed w w' e = rw e (ground arith)

module _ {P : Type 0} (env : Env P) where
  ensure_key-Ensures :
      (w : World P)
      → Ensures (λ k w'. (k ≡ key_of w) × (w' ≡ record w { state = keyed w })) (ensure_key env w)
  unfolding ensure_key
  ensure_key-Ensures w = elim (Bool-cases (is_empty w.state.redis_key)) [
    | inl e ↦ elim (Bool-cases (is_empty w.state.guest_id)) [
      | inl f ↦ rw (e, f) tt
      | inr f ↦ rw (e, f) (refl, refl)
    ]
    | inr e ↦ rw e (refl, refl)
  ]

  -- One GET that is answered.
  record Got (k : Text) (w : World P) (p : P) (w' : World P) : Type 0 where
    hit : lookup k w.store ≡ some p
    same_store : w'.store ≡ w.store
    same_sent : w'.sent ≡ w.sent
    same_state : w'.state ≡ w.state

  get-Got : (k : Text) (w : World P) → Ensures (Got k w) (get env k w)
  unfolding get
  get-Got k w = ground arith

  record Put (k : Text) (p : P) (w : World P) (w' : World P) : Type 0 where
    new_store : w'.store ≡ insert k p w.store
    same_sent : w'.sent ≡ w.sent
    same_state : w'.state ≡ w.state

  set-Put : (k : Text) (p : P) (w : World P) → Ensures (λ _. Put k p w) (set env k p w)
  unfolding set
  set-Put k p w = ground arith

  -- `v` is what the server keeps for the guest, and nothing else has changed.
  pub record Loaded (w : World P) (v : GuestJourneyCacheValue) (w' : World P) : Type 0 where
    pub payload : P
    pub kept : lookup (key_of w) w.store ≡ some payload
    pub decoded : env.unmarshal payload ≡ some v
    pub same_store : w'.store ≡ w.store
    pub same_sent : w'.sent ≡ w.sent
    pub same_state : w'.state ≡ keyed w

  load_end :
      (w : World P) (k : Text) (w1 : World P) (p : P) (w2 : World P)
      → k ≡ key_of w
      → w1 ≡ record w { state = keyed w }
      → Got k w1 p w2
      → Ensures (Loaded w) (expect (env.unmarshal p) unmarshal_failed w2)
  load_end w k w1 p w2 ek ew g = elim (Option-cases (env.unmarshal p)) [
    | inl e ↦ rw e tt
    | inr (v, e) ↦ rw e (record {
      payload = p;
      kept =
          subst (λ x. lookup x w.store ≡ some p) ek
            (subst (λ (x : World P). lookup k x.store ≡ some p) ew g.hit);
      decoded = e;
      same_store = g.same_store ∙ ap (λ (x : World P). x.store) ew;
      same_sent = g.same_sent ∙ ap (λ (x : World P). x.sent) ew;
      same_state = g.same_state ∙ ap (λ (x : World P). x.state) ew;
    })
  ]

  pub load-Loaded : (w : World P) → Ensures (Loaded w) (load env w)
  unfolding load
  load-Loaded w = reject_if-Ensures _ (not env.redis_client) _ _ w λ on.
      bind-Ensures _ _ (ensure_key env w) _ (ensure_key-Ensures w) λ k w1 (ek, ew).
        bind-Ensures _ _ (get env k w1) _ (get-Got k w1) λ p w2 g. load_end w k w1 p w2 ek ew g

  -- The server keeps `v` for the guest now.
  pub record Saved (w : World P) (v : GuestJourneyCacheValue) (w' : World P) : Type 0 where
    pub payload : P
    pub client : env.redis_client ≡ true
    pub encoded : env.marshal v ≡ some payload
    pub new_store : w'.store ≡ insert (key_of w) payload w.store
    pub same_sent : w'.sent ≡ w.sent
    pub same_state : w'.state ≡ keyed w

  -- The server keeps the payload that was written.
  pub Saved-kept :
      (w : World P) (v : GuestJourneyCacheValue) (w' : World P) (s : Saved w v w')
      → lookup (key_of w) w'.store ≡ some s.payload
  Saved-kept w v w' s = rw s.new_store (
      ground (
        arith,
        lookup-insert (key_of w) (key_of w) s.payload w.store,
        text_eq_iff (key_of w) (key_of w),
      ))

  save_end :
      (v : GuestJourneyCacheValue) (w : World P) (k : Text) (w1 : World P)
      → not env.redis_client ≡ false
      → k ≡ key_of w
      → w1 ≡ record w { state = keyed w }
      → Ensures (λ _. Saved w v) ((expect (env.marshal v) marshal_failed >>= set env k) w1)
  save_end v w k w1 on ek ew = elim (Option-cases (env.marshal v)) [
    | inl e ↦ rw e tt
    | inr (p, e) ↦ rw e (
        Ensures-weaken _ _ (set env k p w1)
          (λ _ w2 s. record {
            payload = p;
            client = ground (arith, on);
            encoded = e;
            new_store =
                subst (λ x. w2.store ≡ insert x p w.store) ek
                  (subst (λ (x : World P). w2.store ≡ insert k p x.store) ew s.new_store);
            same_sent = s.same_sent ∙ ap (λ (x : World P). x.sent) ew;
            same_state = s.same_state ∙ ap (λ (x : World P). x.state) ew;
          })
          (set-Put k p w1))
  ]

  pub save-Saved :
      (v : GuestJourneyCacheValue) (w : World P) → Ensures (λ _. Saved w v) (save env v w)
  unfolding save
  save-Saved v w = reject_if-Ensures _ (not env.redis_client) _ _ w λ on.
      bind-Ensures _ _ (ensure_key env w) _ (ensure_key-Ensures w)
        λ k w1 (ek, ew). save_end v w k w1 on ek ew

  -- Whatever the outcome, loading changes neither the server nor the requests sent.
  pub load-same : (w : World P) → ((load env w).1.store ≡ w.store) × ((load env w).1.sent ≡ w.sent)
  unfolding load get ensure_key
  load-same w = ground arith

  pub save-same_sent : (v : GuestJourneyCacheValue) (w : World P) → (save env v w).1.sent ≡ w.sent
  unfolding save set ensure_key
  save-same_sent v w = ground arith

  -- A save leaves the server as it was or with the whole new value, also when an error is returned.
  pub save_atomic :
      (v : GuestJourneyCacheValue) (w : World P) (p : P)
      → env.marshal v ≡ some p
      → ((save env v w).1.store ≡ w.store) ⊎ ((save env v w).1.store ≡ insert (key_of w) p w.store)
  unfolding save set ensure_key
  save_atomic v w p e = ground arith

  save_unmarshalled :
      (v : GuestJourneyCacheValue) (w : World P)
      → env.marshal v ≡ none
      → (save env v w).1.store ≡ w.store
  unfolding save ensure_key
  save_unmarshalled v w e = ground arith

  load_hit :
      (w : World P) (p : P) (v : GuestJourneyCacheValue)
      → env.redis_client ≡ true
      → is_empty w.state.redis_key ≡ false
      → env.redis w.calls ≡ done
      → lookup w.state.redis_key w.store ≡ some p
      → env.unmarshal p ≡ some v
      → load env w ≡ (ok v, record w { calls = suc w.calls })
  unfolding load get ensure_key
  load_hit w p v on full up hit e = ground arith

  key_of_full : (w : World P) → is_empty (key_of w) ≡ false
  key_of_full w = ground arith

  -- After a save that succeeded, a load whose command arrives returns the saved value, and changes
  -- neither the state nor what the server keeps nor what was sent; `json` is assumed to round trip.
  pub load-save :
      (v : GuestJourneyCacheValue) (w w' : World P)
      → RoundTrips env
      → save env v w ≡ (ok tt, w')
      → env.redis w'.calls ≡ done
      → load env w' ≡ (ok v, record w' { calls = suc w'.calls })
  load-save v w w' trip saved up =
      let s = Ensures-ok (λ _. Saved w v) saved (save-Saved v w) in
      load_hit w' s.payload v s.client (rw s.same_state (key_of_full w)) up
        (subst (λ k. lookup k w'.store ≡ some s.payload)
          (ap (λ (st : State). st.redis_key) (sym s.same_state)) (Saved-kept w v w' s))
        (trip v s.payload s.encoded)

  -- A save touches no key but the guest's own, whatever its outcome.
  pub save_other_keys :
      (v : GuestJourneyCacheValue) (w : World P) (j : Text)
      → j ≢ key_of w
      → lookup j (save env v w).1.store ≡ lookup j w.store
  save_other_keys v w j other = elim (Option-cases (env.marshal v)) [
    | inl e ↦ ap (lookup j) (save_unmarshalled v w e)
    | inr (p, e) ↦ elim (save_atomic v w p e) [
      | inl same ↦ ap (lookup j) same
      | inr new ↦
          ap (lookup j) new
          ∙ ground (arith, lookup-insert (key_of w) j p w.store, text_eq_iff (key_of w) j)
    ]
  ]
