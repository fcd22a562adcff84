-- ===== src/RegisterGuest/Registered.antt =====
-- What a registration that returns nil has done.
use kenshu_elaris_project_gu.Prelude.{ap, arith, refl, some, subst, ℕ, ◌∙◌, ◌∷◌, ◌≡◌}
use kenshu_elaris_project_gu.Cache.{load, lookup, save}
use kenshu_elaris_project_gu.Cache.Effects.{
  Loaded, Saved, Saved-kept, keyed, load-Loaded, save-Saved,
}
use kenshu_elaris_project_gu.Cache.Laws.{key_of}
use kenshu_elaris_project_gu.Domain.{Guest, GuestJourneyCacheValue, State}
use kenshu_elaris_project_gu.GoText.{Text}
use kenshu_elaris_project_gu.RegisterGuest.{execute}
use kenshu_elaris_project_gu.World.{Env, World, body, ok, post_guest}
use kenshu_elaris_project_gu.World.Rules.{
  Ensures, Ensures-ok, Ensures-weaken, bind-Ensures, expect-Ensures, read_reply-Ensures,
}

module _ {P : Type 0} (env : Env P) where
  -- The guest is registered, and the journey knows the new id.
  pub record Registered (w w' : World P) : Type 0 where
    pub old : P
    pub value : GuestJourneyCacheValue
    pub guest : Guest
    pub id : Text
    pub number : ℕ
    pub old_kept : lookup (key_of w) w.store ≡ some old
    pub old_read : env.unmarshal old ≡ some value
    pub has_guest : value.personal_info ≡ some guest
    pub answered : env.guest_id_of number guest ≡ body id
    pub one_sent : w'.sent ≡ post_guest guest ∷ w.sent
    pub new : P
    pub new_kept : lookup (key_of w) w'.store ≡ some new
    pub new_written :
        env.marshal (record value { guest_id = id; personal_info = some guest }) ≡ some new
    pub same_state : w'.state ≡ record (keyed w) { guest = some guest; guest_id = id }

  -- The key of a state that was loaded does not depend on the guest's id.
  key_of-registered :
      (w w3 : World P) (guest : Guest) (id : Text)
      → w3.state ≡ record (keyed w) { guest = some guest; guest_id = id }
      → key_of w3 ≡ key_of w
  key_of-registered w w3 guest id e = ground (arith, e)

  keyed-registered :
      (w w3 : World P) (guest : Guest) (id : Text)
      → w3.state ≡ record (keyed w) { guest = some guest; guest_id = id }
      → keyed w3 ≡ record (keyed w) { guest = some guest; guest_id = id }
  keyed-registered w w3 guest id e = ground (arith, e)

  register_end :
      (w w1 w3 : World P) (value : GuestJourneyCacheValue) (guest : Guest) (id : Text) (number : ℕ)
      → Loaded env w value w1
      → value.personal_info ≡ some guest
      → env.guest_id_of number guest ≡ body id
      → w3.sent ≡ post_guest guest ∷ w1.sent
      → w3.state ≡ record (w1.state) { guest = some guest; guest_id = id }
      → Ensures
          (λ _. Registered w)
          (save env (record value { guest_id = id; personal_info = some guest }) w3)
  register_end w w1 w3 value guest id number l hg answered sent state =
      let v : GuestJourneyCacheValue = record value { guest_id = id; personal_info = some guest } in
      let at : w3.state ≡ record (keyed w) { guest = some guest; guest_id = id } =
        state ∙ ap (λ (s : State). record s { guest = some guest; guest_id = id }) l.same_state in
      Ensures-weaken (λ _. Saved env w3 v) (λ _. Registered w) (save env v w3)
        (λ _ w' s. record {
          old = l.payload;
          value = value;
          guest = guest;
          id = id;
          number = number;
          old_kept = l.kept;
          old_read = l.decoded;
          has_guest = hg;
          answered = answered;
          one_sent = s.same_sent ∙ sent ∙ ap (λ r. post_guest guest ∷ r) l.same_sent;
          new = s.payload;
          new_kept =
              subst (λ k. lookup k w'.store ≡ some s.payload) (key_of-registered w w3 guest id at)
                (Saved-kept env w3 v w' s);
          new_written = s.encoded;
          same_state = s.same_state ∙ keyed-registered w w3 guest id at;
        })
        (save-Saved env v w3)

  execute-Ensures : (w : World P) → Ensures (λ _. Registered w) (execute env w)
  unfolding execute
  execute-Ensures w =
      bind-Ensures (Loaded env w) (λ _. Registered w) (load env w) _ (load-Loaded env w)
        λ value w1 l.
          expect-Ensures (λ _. Registered w) value.personal_info _ _ w1
            λ guest hg.
              read_reply-Ensures (λ _. Registered w) (env.guest_id_of w1.calls guest) _ _
                λ id e. register_end w w1 _ value guest id w1.calls l hg e refl refl

  -- If the step returns nil, it sent one registration, of the guest that Redis kept; the state has
  -- the id with which the service answered; and Redis keeps the value with that id, under the key
  -- of before, although the key was made from the id that the state had then.
  pub execute-Registered : (w w' : World P) → execute env w ≡ (ok tt, w') → Registered w w'
  execute-Registered w w' e = Ensures-ok (λ _. Registered w) e (execute-Ensures w)
