-- ===== src/GuestJourney/Silent.antt =====
-- The stages of a journey that send no request.
use kenshu_elaris_project_gu.Prelude.{
  Bool, Bool-cases, List, ap, arith, inl, inr, not, refl, suc, ℕ, ◌∙◌, ◌≡◌,
}
use kenshu_elaris_project_gu.Cache.{del, get, load}
use kenshu_elaris_project_gu.CreateGuest.{Fake, create_guest, validate_booking}
use kenshu_elaris_project_gu.GoText.{Text, is_empty}
use kenshu_elaris_project_gu.GuestJourney.{flow}
use kenshu_elaris_project_gu.JourneyCache.{
  cleanup_guest_journey, delete_state_cache, initialize_state_cache, log_state_cache,
  sync_state_cache, then_close,
}
use kenshu_elaris_project_gu.Lodging.Chat.{Chat}
use kenshu_elaris_project_gu.Lodging.Enter.{Lodger, load_cache, validate}
use kenshu_elaris_project_gu.Lodging.Plan.{LodgingFlow}
use kenshu_elaris_project_gu.Lodging.Stay.{execute, stay_with_client}
use kenshu_elaris_project_gu.LodgingRun.{
  LodgingStay, Stayed, run_lodging_graph, run_lodging_stay_flow, validated,
}
use kenshu_elaris_project_gu.Quiet.{
  Quiet, bind-Quiet, expect-Quiet, load-Quiet, reject_if-Quiet, save-Quiet,
}
use kenshu_elaris_project_gu.Wiring.{Wiring}
use kenshu_elaris_project_gu.World.{
  Env, Outcome, Request, World, cache_is_nil, err, expect, guest_id_is_empty, guest_is_nil,
  invalid_booking_context, invalid_guest_context, no_booking_id, ok, panics, redis_key_is_empty,
  reject_if, state_is_nil, ◌>>◌,
}

module _ {P : Type 0} (env : Env P) (d : Wiring) (f : List Request → ℕ) where
  initialize-Quiet : Quiet f (initialize_state_cache env d)
  unfolding initialize_state_cache
  initialize-Quiet =
      bind-Quiet f (reject_if (not d.state_set) state_is_nil) _ (reject_if-Quiet f _ _) λ _.
        bind-Quiet f (reject_if (not d.cache_set) cache_is_nil) _ (reject_if-Quiet f _ _) λ _ w.
          bind-Quiet f (expect w.state.guest guest_is_nil) _ (expect-Quiet f _ _)
            (λ guest v.
              bind-Quiet f (reject_if (is_empty w.state.redis_key) redis_key_is_empty) _
                (reject_if-Quiet f _ _) (λ _. save-Quiet f env _) v)
            w

  pub create_guest-Quiet :
      (lower : Text → Text) (fake : Fake) → Quiet f (create_guest env lower fake d)
  unfolding create_guest
  create_guest-Quiet lower fake w = initialize-Quiet _

  pub validate_booking-Quiet : Quiet f (validate_booking env)
  unfolding validate_booking
  validate_booking-Quiet = bind-Quiet f (load env) _ (load-Quiet f env) λ value.
      bind-Quiet f (expect value.booking no_booking_id) _ (expect-Quiet f _ _)
        λ b. reject_if-Quiet f (is_empty b.booking_id) no_booking_id

  pub sync-Quiet : Quiet f (sync_state_cache env d)
  unfolding sync_state_cache
  sync-Quiet =
      bind-Quiet f (reject_if (not d.state_set) state_is_nil) _ (reject_if-Quiet f _ _) λ _.
        bind-Quiet f (reject_if (not d.cache_set) cache_is_nil) _ (reject_if-Quiet f _ _) λ _ w.
          bind-Quiet f (reject_if (is_empty w.state.guest_id) guest_id_is_empty) _
            (reject_if-Quiet f _ _)
            (λ _. bind-Quiet f (load env) _ (load-Quiet f env) λ value. save-Quiet f env _) w

  log-Quiet : Quiet f (log_state_cache env d)
  unfolding log_state_cache get
  log-Quiet w = ground arith

  delete-Quiet : Quiet f (delete_state_cache env d)
  unfolding delete_state_cache del
  delete-Quiet w = ground arith

  log_delete-Quiet : Quiet f (log_state_cache env d >> delete_state_cache env d)
  log_delete-Quiet =
      bind-Quiet f (log_state_cache env d) (λ _. delete_state_cache env d) log-Quiet
        λ _. delete-Quiet

  then_close-sent :
      (r : Outcome (Unit {0}) × World P) (can_close listening : Bool)
      → (then_close env d r can_close listening).0.1 ≡ r.1
  then_close-sent (ok u, w) can_close listening = refl
  then_close-sent (err e, w) can_close listening = refl
  then_close-sent (panics, w) can_close listening = refl

  pub cleanup-Quiet :
      (can_close listening : Bool) (w : World P)
      → f (cleanup_guest_journey env d can_close listening w).0.1.sent ≡ f w.sent
  unfolding cleanup_guest_journey
  cleanup-Quiet can_close listening w =
      let r = (log_state_cache env d >> delete_state_cache env d) w in
      ap (λ (x : World P). f x.sent) (then_close-sent r can_close listening) ∙ log_delete-Quiet w

  load_cache-Quiet : Quiet f (load_cache env)
  unfolding load_cache
  load_cache-Quiet = bind-Quiet f (load env) _ (load-Quiet f env) λ value.
      bind-Quiet f (expect value.personal_info invalid_guest_context) _ (expect-Quiet f _ _)
        λ guest.
          bind-Quiet f (expect value.booking invalid_booking_context) _ (expect-Quiet f _ _) λ b.
            bind-Quiet f (reject_if (is_empty b.booking_id) invalid_booking_context) _
              (reject_if-Quiet f _ _)
              λ _.
                bind-Quiet f (expect b.selected_period invalid_booking_context) _
                  (expect-Quiet f _ _) λ period v. refl

  enter-Quiet : (url : Text) (flow : LodgingFlow) → Quiet f (validate {P = P} d url flow)
  unfolding validate
  enter-Quiet url flow w = ground arith

  lodging_execute-Quiet :
      (stay : LodgingStay) (w : World P) (c : Chat)
      → f (execute env stay.dialed stay.itinerary stay.key_id w c).1.sent ≡ f w.sent
  unfolding execute
  lodging_execute-Quiet stay w c = by_load (load_cache env w) (load_cache-Quiet w)
    where
      by_load :
          (r : Outcome Lodger × World P)
          → f r.1.sent ≡ f w.sent
          → f
              (elim (r.0) as (λ _. Stayed P) [
                | ok lodger ↦
                    (stay_with_client stay.dialed stay.itinerary stay.key_id lodger c, r.1)
                | err e ↦ ((err e, c), r.1)
                | panics ↦ ((panics, c), r.1)
              ]).1.sent
            ≡ f w.sent
      by_load (ok lodger, v) h = h
      by_load (err e, v) h = h
      by_load (panics, v) h = h

  validated-Quiet :
      (n : ℕ) (r : Outcome (Unit {0}) × World P) (c : Chat) (more : World P → Stayed P)
      → f r.1.sent ≡ n
      → ((v : World P) → f v.sent ≡ n → f (more v).1.sent ≡ n)
      → f (validated r c more).1.sent ≡ n
  validated-Quiet n (ok u, v) c more h k = k v h
  validated-Quiet n (err e, v) c more h k = h
  validated-Quiet n (panics, v) c more h k = h

  graph-Quiet :
      (stay : LodgingStay) (w : World P) (c : Chat)
      → f (run_lodging_graph env d stay w c).1.sent ≡ f w.sent
  unfolding run_lodging_graph
  graph-Quiet stay w c = elim (Bool-cases (env.canceled w.calls)) [
    | inl e ↦ rw e refl
    | inr e ↦
        let w1 : World P = record w { calls = suc w.calls } in
        rw e (
          validated-Quiet (f w.sent) (validate d stay.chat_url stay.itinerary w1) c _
            (enter-Quiet stay.chat_url stay.itinerary w1) λ v h. lodging_execute-Quiet stay v c ∙ h)
  ]

  pub lodging-Quiet :
      (stay : LodgingStay) (w : World P) (c : Chat)
      → f (run_lodging_stay_flow env d stay w c).1.sent ≡ f w.sent
  unfolding run_lodging_stay_flow
  lodging-Quiet stay w c = elim (Bool-cases stay.step_set) [
    | inl e ↦ simp e (graph-Quiet stay w c)
    | inr e ↦ simp e refl
  ]
