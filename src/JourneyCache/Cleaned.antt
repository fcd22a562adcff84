-- ===== src/JourneyCache/Cleaned.antt =====
-- On the cleanup: what it leaves.
use kenshu_elaris_project_gu.Prelude.{
  Bool, ap, arith, false, inl, inr, none, refl, true, ◌∙◌, ◌≡◌, ◌≢◌, ◌⊎◌,
}
use kenshu_elaris_project_gu.Cache.{del, erase, get, lookup}
use kenshu_elaris_project_gu.Cache.Laws.{lookup-erase}
use kenshu_elaris_project_gu.GoText.{Text, text_eq_iff}
use kenshu_elaris_project_gu.JourneyCache.{
  cleanup_guest_journey, close_communication, delete_state_cache, log_state_cache, then_close,
}
use kenshu_elaris_project_gu.Wiring.{Wiring}
use kenshu_elaris_project_gu.World.{Env, Outcome, World, done, err, ok, panics, ◌>>◌}
use kenshu_elaris_project_gu.World.Rules.{Ensures, Ensures-at, Ensures-weaken, bind-Ensures}

module _ {P : Type 0} (env : Env P) (d : Wiring) where
  -- The first call, the read for the log, was answered, and there was an entry to read.
  abbrev pub IsRead : World P → Type 0
  IsRead w = (env.redis w.calls ≡ done) × (lookup w.state.redis_key w.store ≢ none)

  -- A read for the log leaves the server and the state, and fails on a lost command or a missing entry.
  log-same :
      (w : World P)
      → Ensures
          (λ _ w'. (w'.store ≡ w.store) × (w'.state ≡ w.state) × IsRead w)
          (log_state_cache env d w)
  unfolding log_state_cache get
  log-same w = ground arith

  delete-erases :
      (w : World P)
      → Ensures
          (λ _ w'. (w'.store ≡ erase w.state.redis_key w.store) × (w'.state ≡ w.state))
          (delete_state_cache env d w)
  unfolding delete_state_cache del
  delete-erases w = ground arith

  -- The entry of the journey was read and is gone, and every other entry is as it was.
  abbrev pub Forgets : World P → World P → Type 0
  Forgets w w' =
      IsRead w
      × (lookup w.state.redis_key w'.store ≡ none)
      × ((j : Text) → j ≢ w.state.redis_key → lookup j w'.store ≡ lookup j w.store)

  erased-Forgets :
      (w w' : World P) → IsRead w → w'.store ≡ erase w.state.redis_key w.store → Forgets w w'
  erased-Forgets w w' there e = (
    there,
    ap (lookup w.state.redis_key) e
        ∙ ground (
          arith,
          lookup-erase w.state.redis_key w.state.redis_key w.store,
          text_eq_iff w.state.redis_key w.state.redis_key,
        ),
    λ j other.
        ap (lookup j) e
        ∙ ground (arith, lookup-erase w.state.redis_key j w.store, text_eq_iff w.state.redis_key j),
  )

  log_delete-Forgets :
      (w : World P)
      → Ensures (λ _ w'. Forgets w w') ((log_state_cache env d >> delete_state_cache env d) w)
  log_delete-Forgets w =
      bind-Ensures (λ _ w1. (w1.store ≡ w.store) × (w1.state ≡ w.state) × IsRead w)
        (λ _ w'. Forgets w w') (log_state_cache env d w) (λ _. delete_state_cache env d)
        (log-same w)
        λ _ w1 (store, state, there).
          Ensures-weaken _ (λ _ w'. Forgets w w') (delete_state_cache env d w1)
            (λ _ w' (erased, _).
              erased-Forgets w w' there (erased ∙ λ i. erase (state i).redis_key (store i)))
            (delete-erases w1)

  log_delete-state :
      (w : World P)
      → Ensures (λ _ w'. w'.state ≡ w.state) ((log_state_cache env d >> delete_state_cache env d) w)
  log_delete-state w =
      bind-Ensures (λ _ w1. (w1.store ≡ w.store) × (w1.state ≡ w.state) × IsRead w)
        (λ _ w'. w'.state ≡ w.state) (log_state_cache env d w) (λ _. delete_state_cache env d)
        (log-same w)
        λ _ w1 (_, state, _).
          Ensures-weaken _ (λ _ w'. w'.state ≡ w.state) (delete_state_cache env d w1)
            (λ _ w' (_, state'). state' ∙ state) (delete-erases w1)

  then_close-Ensures :
      (Q : World P → Type 0) (r : Outcome (Unit {0}) × World P) (can_close listening : Bool)
      → Ensures (λ _. Q) r
      → Ensures (λ _. Q) (then_close env d r can_close listening).0
  unfolding close_communication
  then_close-Ensures Q (ok u, w') can_close false h = h
  then_close-Ensures Q (ok u, w') true true h = h
  then_close-Ensures Q (ok u, w') false true h = tt
  then_close-Ensures Q (err e, w') can_close listening h = tt
  then_close-Ensures Q (panics, w') can_close listening h = tt

  then_close-Forgets :
      (w : World P) (r : Outcome (Unit {0}) × World P) (can_close listening : Bool)
      → Ensures (λ _ w'. Forgets w w') r
      → (then_close env d r can_close listening).1 ≢ listening
        ⊎ ((then_close env d r can_close listening).0.0 ≡ ok tt)
      → Forgets w (then_close env d r can_close listening).0.1
        × ((then_close env d r can_close listening).1 ≡ false)
  unfolding close_communication
  then_close-Forgets w (ok u, w') can_close false h k = (h, refl)
  then_close-Forgets w (ok u, w') true true h k = (h, refl)
  then_close-Forgets w (ok u, w') false true h (inl k) = absurd (k refl)
  then_close-Forgets w (ok u, w') false true h (inr k) = cc
  then_close-Forgets w (err e, w') can_close listening h (inl k) = absurd (k refl)
  then_close-Forgets w (err e, w') can_close listening h (inr k) = cc
  then_close-Forgets w (panics, w') can_close listening h (inl k) = absurd (k refl)
  then_close-Forgets w (panics, w') can_close listening h (inr k) = cc

  -- If the cleanup closes the channel of the bus's consumer, or returns nil, then its read for the
  -- log was answered and found the entry of the journey in Redis, the entry is gone, every other entry
  -- is as it was, and the bus has no consumer any more. So a cleanup that cannot read the entry for
  -- the log, or whose read finds none, neither closes the channel nor returns nil.
  pub cleanup_guest_journey-Forgets :
      (can_close listening : Bool) (w : World P)
      → (cleanup_guest_journey env d can_close listening w).1 ≢ listening
        ⊎ ((cleanup_guest_journey env d can_close listening w).0.0 ≡ ok tt)
      → Forgets w (cleanup_guest_journey env d can_close listening w).0.1
        × ((cleanup_guest_journey env d can_close listening w).1 ≡ false)
  unfolding cleanup_guest_journey
  cleanup_guest_journey-Forgets can_close listening w h =
      then_close-Forgets w ((log_state_cache env d >> delete_state_cache env d) w) can_close
        listening (log_delete-Forgets w) h

  -- A cleanup that returns nil leaves the state.
  pub cleanup_guest_journey-state :
      (can_close listening : Bool) (w : World P)
      → (cleanup_guest_journey env d can_close listening w).0.0 ≡ ok tt
      → (cleanup_guest_journey env d can_close listening w).0.1.state ≡ w.state
  unfolding cleanup_guest_journey
  cleanup_guest_journey-state can_close listening w e =
      Ensures-at (λ _ w'. w'.state ≡ w.state) (cleanup_guest_journey env d can_close listening w).0
        e (then_close-Ensures (λ w'. w'.state ≡ w.state) _ can_close listening (log_delete-state w))
