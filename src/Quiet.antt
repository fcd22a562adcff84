-- ===== src/Quiet.antt =====
-- Actions that keep a number read off the requests sent, whatever their outcome.
use kenshu_elaris_project_gu.Prelude.{
  Bool, List, Option, ap, arith, false, none, refl, some, suc, true, ℕ, ◌+◌, ◌∙◌, ◌∷◌, ◌≡◌, ◌≤◌,
}
use kenshu_elaris_project_gu.Cache.{load, save}
use kenshu_elaris_project_gu.Cache.Effects.{load-same, save-same_sent}
use kenshu_elaris_project_gu.Domain.{GuestJourneyCacheValue, State}
use kenshu_elaris_project_gu.World.{
  Action, Env, Error, Reply, Request, World, ask, body, call, deref, expect, follow_set, get_state,
  pure, rand_intn, read_reply, reject_if, set_state, status_error, unreachable, unreadable, ◌>>=◌,
}
use kenshu_elaris_project_gu.World.Rules.{bind-Always, rand_intn_same}

module _ {P : Type 0} (f : List Request → ℕ) where
  abbrev pub Quiet : {A : Type 0} → Action P A → Type 0
  Quiet a = (w : World P) → f (a w).1.sent ≡ f w.sent

  pub bind-Quiet :
      {A B : Type 0} (m : Action P A) (k : A → Action P B)
      → Quiet m
      → ((a : A) → Quiet (k a))
      → Quiet (m >>= k)
  bind-Quiet m k h g w =
      bind-Always (λ w'. f w'.sent ≡ f w.sent) (m w) k (h w) (λ a _. g a (m w).1 ∙ h w)

  pub pure-Quiet : {A : Type 0} (a : A) → Quiet (pure a)
  pure-Quiet a w = refl

  pub get_state-Quiet : Quiet get_state
  get_state-Quiet w = refl

  pub set_state-Quiet : (s : State) → Quiet (set_state s)
  set_state-Quiet s w = refl

  pub reject_if-Quiet : (bad : Bool) (e : Error) → Quiet (reject_if bad e)
  reject_if-Quiet true e w = refl
  reject_if-Quiet false e w = refl

  pub expect-Quiet : {A : Type 0} (o : Option A) (e : Error) → Quiet (expect o e)
  expect-Quiet none e w = refl
  expect-Quiet (some a) e w = refl

  pub deref-Quiet : {A : Type 0} (o : Option A) → Quiet (deref o)
  deref-Quiet none w = refl
  deref-Quiet (some a) w = refl

  pub follow_set-Quiet : (set : Bool) → Quiet (follow_set set)
  follow_set-Quiet true w = refl
  follow_set-Quiet false w = refl

  pub ask-Quiet : {A : Type 0} (g : ℕ → A) → Quiet (ask g)
  ask-Quiet g w = refl

  read_reply-sent : {A : Type 0} (r : Reply A) (w : World P) → (read_reply r w).1 ≡ w
  read_reply-sent unreachable w = refl
  read_reply-sent status_error w = refl
  read_reply-sent unreadable w = refl
  read_reply-sent (body a) w = refl

  -- A call whose request does not count.
  pub call-Quiet :
      {A : Type 0} (q : Request) (g : ℕ → Reply A)
      → ((sent : List Request) → f (q ∷ sent) ≡ f sent)
      → Quiet (call q g)
  call-Quiet q g h w = ap (λ (x : World P). f x.sent) (read_reply-sent (g w.calls) _) ∙ h w.sent

  pub rand_intn-Quiet : (env : Env P) (n : ℕ) → Quiet (rand_intn env n)
  rand_intn-Quiet env n w = ap f (rand_intn_same env n w).0

  pub load-Quiet : (env : Env P) → Quiet (load env)
  load-Quiet env w = ap f (load-same env w).1

  pub save-Quiet : (env : Env P) (v : GuestJourneyCacheValue) → Quiet (save env v)
  save-Quiet env v w = ap f (save-same_sent env v w)

-- Actions that add at most `n` to it.
module _ {P : Type 0} (f : List Request → ℕ) (n : ℕ) where
  abbrev pub Adds : {A : Type 0} → Action P A → Type 0
  Adds a = (w : World P) → f (a w).1.sent ≤ f w.sent + n

  -- Only the part behind adds.
  pub bind-Adds :
      {A B : Type 0} (m : Action P A) (k : A → Action P B)
      → Quiet f m
      → ((a : A) → Adds (k a))
      → Adds (m >>= k)
  bind-Adds m k h g w =
      bind-Always (λ w'. f w'.sent ≤ f w.sent + n) (m w) k (omega (arith, h w))
        λ a _. omega (arith, h w, g a (m w).1)

  -- Only the part before adds.
  pub Adds-bind :
      {A B : Type 0} (m : Action P A) (k : A → Action P B)
      → Adds m
      → ((a : A) → Quiet f (k a))
      → Adds (m >>= k)
  Adds-bind m k h g w =
      bind-Always (λ w'. f w'.sent ≤ f w.sent + n) (m w) k (h w)
        λ a _. omega (arith, h w, g a (m w).1)

  pub call-Adds :
      {A : Type 0} (q : Request) (g : ℕ → Reply A)
      → ((sent : List Request) → f (q ∷ sent) ≤ f sent + n)
      → Adds (call q g)
  call-Adds q g h w =
      let w1 : World P = record w { calls = suc w.calls; sent = q ∷ w.sent } in
      let same : f (read_reply (g w.calls) w1).1.sent ≡ f (q ∷ w.sent) =
        ap (λ (x : World P). f x.sent) (read_reply-sent f (g w.calls) w1) in
      omega (arith, h w.sent, same)
