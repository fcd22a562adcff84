-- ===== src/World/Rules.antt =====
-- Postconditions of actions: of success alone (`Ensures`), and of the world that an action leaves
-- whatever its outcome (the rules that end in `Always`).
use kenshu_elaris_project_gu.Prelude.{
  Bool, Option, arith, false, none, refl, some, subst, suc, true, ℕ, ◌≡◌,
}
use kenshu_elaris_project_gu.World.{
  Action, Env, Error, Outcome, Reply, World, body, continue, deref, err, expect, follow_set, ok,
  panics, rand_intn, read_reply, reject_if, status_error, unreachable, unreadable,
}

-- What holds of a successful outcome.
abbrev pub OnOk : {A P : Type 0} → (A → World P → Type 0) → Outcome A → World P → Type 0
OnOk Q (ok a) w = Q a w
OnOk Q (err e) w = Unit
OnOk Q panics w = Unit

module _ {P A : Type 0} where
  -- If the action succeeds, its result and the world it leaves satisfy `Q`.
  abbrev pub Ensures : (A → World P → Type 0) → Outcome A × World P → Type 0
  Ensures Q r = OnOk Q r.0 r.1

  pub Ensures-weaken :
      (Q R : A → World P → Type 0) (r : Outcome A × World P)
      → ((a : A) (w : World P) → Q a w → R a w)
      → Ensures Q r
      → Ensures R r
  Ensures-weaken Q R (ok a, w) f h = f a w h
  Ensures-weaken Q R (err e, w) f h = tt
  Ensures-weaken Q R (panics, w) f h = tt

  pub Ensures-ok :
      (Q : A → World P → Type 0) {r : Outcome A × World P} {a : A} {w : World P}
      → r ≡ (ok a, w)
      → Ensures Q r
      → Q a w
  Ensures-ok Q e h = subst (λ s. Ensures Q s) e h

  pub Ensures-both :
      (Q R : A → World P → Type 0) (r : Outcome A × World P)
      → Ensures Q r
      → Ensures R r
      → Ensures (λ a w. Q a w × R a w) r
  Ensures-both Q R (ok a, w) h k = (h, k)
  Ensures-both Q R (err e, w) h k = tt
  Ensures-both Q R (panics, w) h k = tt

module _ {P A B : Type 0} where
  pub bind-Ensures :
      (Q : A → World P → Type 0) (R : B → World P → Type 0) (r : Outcome A × World P)
      (f : A → Action P B)
      → Ensures Q r
      → ((a : A) (w : World P) → Q a w → Ensures R (f a w))
      → Ensures R (continue r.0 f r.1)
  bind-Ensures Q R (ok a, w) f h k = k a w h
  bind-Ensures Q R (err e, w) f h k = tt
  bind-Ensures Q R (panics, w) f h k = tt

  pub bind-Always :
      (R : World P → Type 0) (r : Outcome A × World P) (f : A → Action P B)
      → R r.1
      → ((a : A) → r.0 ≡ ok a → R (f a r.1).1)
      → R (continue r.0 f r.1).1
  bind-Always R (ok a, w) f h k = k a refl
  bind-Always R (err e, w) f h k = h
  bind-Always R (panics, w) f h k = h

-- Rules for the parts of a chain that test and go on.
module _ {P B : Type 0} (R : B → World P → Type 0) where
  pub reject_if-Ensures :
      (bad : Bool) (e : Error) (f : Unit {0} → Action P B) (w : World P)
      → (bad ≡ false → Ensures R (f tt w))
      → Ensures R (continue (reject_if bad e w).0 f (reject_if bad e w).1)
  reject_if-Ensures true e f w h = tt
  reject_if-Ensures false e f w h = h refl

  pub follow_set-Ensures :
      (set : Bool) (f : Unit {0} → Action P B) (w : World P)
      → Ensures R (f tt w)
      → Ensures R (continue (follow_set set w).0 f (follow_set set w).1)
  follow_set-Ensures true f w h = h
  follow_set-Ensures false f w h = tt

  pub expect-Ensures :
      {A : Type 0} (o : Option A) (e : Error) (f : A → Action P B) (w : World P)
      → ((a : A) → o ≡ some a → Ensures R (f a w))
      → Ensures R (continue (expect o e w).0 f (expect o e w).1)
  expect-Ensures none e f w h = tt
  expect-Ensures (some a) e f w h = h a refl

  pub deref-Ensures :
      {A : Type 0} (o : Option A) (f : A → Action P B) (w : World P)
      → ((a : A) → o ≡ some a → Ensures R (f a w))
      → Ensures R (continue (deref o w).0 f (deref o w).1)
  deref-Ensures none f w h = tt
  deref-Ensures (some a) f w h = h a refl

  pub read_reply-Ensures :
      {A : Type 0} (r : Reply A) (f : A → Action P B) (w : World P)
      → ((a : A) → r ≡ body a → Ensures R (f a w))
      → Ensures R (continue (read_reply r w).0 f (read_reply r w).1)
  read_reply-Ensures unreachable f w h = tt
  read_reply-Ensures status_error f w h = tt
  read_reply-Ensures unreadable f w h = tt
  read_reply-Ensures (body a) f w h = h a refl

-- The same for what holds of the world that is left, whatever the outcome.
module _ {P B : Type 0} (R : World P → Type 0) where
  pub reject_if-Always :
      (bad : Bool) (e : Error) (f : Unit {0} → Action P B) (w : World P)
      → R w
      → (bad ≡ false → R (f tt w).1)
      → R (continue (reject_if bad e w).0 f (reject_if bad e w).1).1
  reject_if-Always true e f w h k = h
  reject_if-Always false e f w h k = k refl

  pub follow_set-Always :
      (set : Bool) (f : Unit {0} → Action P B) (w : World P)
      → R w
      → R (f tt w).1
      → R (continue (follow_set set w).0 f (follow_set set w).1).1
  follow_set-Always true f w h k = k
  follow_set-Always false f w h k = h

  pub expect-Always :
      {A : Type 0} (o : Option A) (e : Error) (f : A → Action P B) (w : World P)
      → R w
      → ((a : A) → o ≡ some a → R (f a w).1)
      → R (continue (expect o e w).0 f (expect o e w).1).1
  expect-Always none e f w h k = h
  expect-Always (some a) e f w h k = k a refl

  pub deref-Always :
      {A : Type 0} (o : Option A) (f : A → Action P B) (w : World P)
      → R w
      → ((a : A) → o ≡ some a → R (f a w).1)
      → R (continue (deref o w).0 f (deref o w).1).1
  deref-Always none f w h k = h
  deref-Always (some a) f w h k = k a refl

  pub read_reply-Always :
      {A : Type 0} (r : Reply A) (f : A → Action P B) (w : World P)
      → R w
      → ((a : A) → r ≡ body a → R (f a w).1)
      → R (continue (read_reply r w).0 f (read_reply r w).1).1
  read_reply-Always unreachable f w h k = h
  read_reply-Always status_error f w h k = h
  read_reply-Always unreadable f w h k = h
  read_reply-Always (body a) f w h k = k a refl

module _ {P A : Type 0} where
  -- What a successful outcome ensures, read at its first part.
  pub Ensures-at :
      (Q : A → World P → Type 0) (r : Outcome A × World P) {a : A}
      → r.0 ≡ ok a
      → Ensures Q r
      → Q a r.1
  Ensures-at Q (ok b, w) e h = subst (λ x. Q x w) (ground arith) h
  Ensures-at Q (err b, w) e h = cc
  Ensures-at Q (panics, w) e h = cc

-- Drawing a number changes the counter of the calls alone.
pub rand_intn_same :
    {P : Type 0} (env : Env P) (n : ℕ) (w : World P)
    → ((rand_intn env n w).1.sent ≡ w.sent) × ((rand_intn env n w).1.state ≡ w.state)
rand_intn_same env ℕ.zero w = (refl, refl)
rand_intn_same env (suc n) w = (refl, refl)
