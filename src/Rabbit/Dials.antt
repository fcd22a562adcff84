-- ===== src/Rabbit/Dials.antt =====
-- On the connection: how often it is dialed.
use kenshu_elaris_project_gu.Prelude.{
  Bool, Bool-cases, List, Option, [], arith, false, if◌then◌else◌, inl, inr, length, ltb, none,
  refl, some, suc, true, zero, ℕ, ◌*◌, ◌+◌, ◌∙◌, ◌∷◌, ◌≡◌, ◌≤◌,
}
use kenshu_elaris_project_gu.GoText.{Text, is_empty}
use kenshu_elaris_project_gu.Rabbit.{
  Broker, Call, ChannelFate, Rabbit, Tried, and_then, bind_queue, bound, close, close_channel,
  connection_closed, consume, declare_queue, declared, dial, ensure_channel, first_request, is_open,
  made, open_channel, open_connection, reconnect_locked, refused, refused_lost, refused_open,
  returned, second_request,
}
use kenshu_elaris_project_gu.SetupCommunication.{BindingConfig, QueueConfig}

-- At most `n` dials lie between the two states, and none if the connection was closed, which it then
-- stays.
abbrev pub Mild : ℕ → Rabbit → Rabbit → Type 0
Mild n r r' =
    (r'.dialed ≤ r.dialed + n)
    × (r.closed_flag ≡ true → (r'.dialed ≡ r.dialed) × (r'.closed_flag ≡ true))

and_then-Mild :
    {A B : Type 0} (a b : ℕ) (r : Rabbit) (t : Tried A × Rabbit) (f : A → Call B)
    → Mild a r t.1
    → ((x : A) (r1 : Rabbit) → Mild b r1 (f x r1).1)
    → Mild (a + b) r (and_then t f).1
and_then-Mild a b r (returned x, r1) f (h, k) g =
    let (h1, k1) = g x r1 in (omega (arith, h, h1), λ c. ((k1 (k c).1).0 ∙ (k c).0, (k1 (k c).1).1))
and_then-Mild a b r (refused e, r1) f (h, k) g = (omega (arith, h), k)

module _ (broker : Broker) where
  dial-bounded : (n : ℕ) (r : Rabbit) → (dial broker n r).1.dialed ≤ r.dialed + n
  unfolding dial
  dial-bounded zero r = omega arith
  dial-bounded (suc n) r = elim (Bool-cases (broker.dials r.dialed)) [
    | inl e ↦ simp e (omega arith)
    | inr e ↦
        let rest =
          dial-bounded n (record r {
            dialed = suc r.dialed;
            slept = if ltb 0 n then suc r.slept else r.slept;
          }) in
        simp e (omega (arith, rest))
  ]

  open_connection-Mild : (r : Rabbit) → Mild 5 r (open_connection broker r).1
  unfolding open_connection reconnect_locked
  open_connection-Mild r = by_flag r.closed_flag refl (is_open r.conn)
    where
      by_flag :
          (shut : Bool)
          → r.closed_flag ≡ shut
          → (live : Bool)
          → Mild 5 r
              (if shut
                then (refused connection_closed, r)
                else if live
                then (returned tt, r)
                else if shut
                then (refused connection_closed, r)
                else dial broker 5 r).1
      by_flag true e live = (omega arith, λ c. (refl, c))
      by_flag false e true = (omega arith, λ c. (refl, c))
      by_flag false e false = (dial-bounded 5 r, λ c. cc)

  second_request-Mild :
      (fate : ChannelFate) (r : Rabbit) → Mild 0 r (second_request broker fate r).1
  second_request-Mild made r = (omega arith, λ c. (refl, c))
  second_request-Mild refused_open r = (omega arith, λ c. (refl, c))
  second_request-Mild refused_lost r = (omega arith, λ c. (refl, c))

  first_request-Mild : (fate : ChannelFate) (r : Rabbit) → Mild 5 r (first_request broker fate r).1
  first_request-Mild made r = (omega arith, λ c. (refl, c))
  first_request-Mild refused_open r = (omega arith, λ c. (refl, c))
  first_request-Mild refused_lost r =
      let lost : Rabbit = record r { asked = suc r.asked; conn = some false } in
      and_then-Mild 5 0 lost (open_connection broker lost) _ (open_connection-Mild lost)
        λ _ r1. second_request-Mild (broker.channels r1.asked) r1

  open_channel-Mild : (r : Rabbit) → Mild 10 r (open_channel broker r).1
  unfolding open_channel
  open_channel-Mild r =
      and_then-Mild 5 5 r (open_connection broker r) _ (open_connection-Mild r)
        λ _ r1. first_request-Mild (broker.channels r1.asked) r1

  ensure_channel-Mild : (r : Rabbit) → Mild 10 r (ensure_channel broker r).1
  unfolding ensure_channel
  ensure_channel-Mild r = by_channel (is_open r.channel)
    where
      by_channel :
          (live : Bool) → Mild 10 r (if live then (returned tt, r) else open_channel broker r).1
      by_channel true = (omega arith, λ c. (refl, c))
      by_channel false = open_channel-Mild r

  declared-Mild : (o : Option Text) (r : Rabbit) → Mild 0 r (declared broker o r).1
  declared-Mild none r = (omega arith, λ c. (refl, c))
  declared-Mild (some name) r = (omega arith, λ c. (refl, c))

-- What can happen to the wrapper: its operations, and the loss of the connection or the channel.
pub data Op : Type 0 where
  opens closes closes_channel consumes loses_connection loses_channel : Op
  declares : QueueConfig → Op
  binds : BindingConfig → Op

-- The state behind an operation.
unfoldable pub behind : Broker → Op → Rabbit → Rabbit
behind broker opens r = (open_channel broker r).1
behind broker closes r = (close broker r).1
behind broker closes_channel r = (close_channel broker r).1
behind broker consumes r = (consume broker r).1
behind broker loses_connection r = record r { conn = some false; channel = some false }
behind broker loses_channel r = record r { channel = some false }
behind broker (declares cfg) r = (declare_queue broker cfg r).1
behind broker (binds cfg) r = (bind_queue broker cfg r).1

unfoldable pub behind_all : Broker → List Op → Rabbit → Rabbit
behind_all broker [] r = r
behind_all broker (o ∷ ops) r = behind_all broker ops (behind broker o r)

module _ (broker : Broker) where
  closes-Mild : (r : Rabbit) → Mild 10 r (close broker r).1
  unfolding close
  closes-Mild r = elim (Bool-cases (is_open r.conn)) [
    | inl e ↦ simp e (omega arith, λ c. (refl, refl))
    | inr e ↦ simp e (omega arith, λ c. (refl, refl))
  ]

  closes_channel-Mild : (r : Rabbit) → Mild 10 r (close_channel broker r).1
  unfolding close_channel
  closes_channel-Mild r = elim (Bool-cases (is_open r.channel)) [
    | inl e ↦ simp e (omega arith, λ c. (refl, c))
    | inr e ↦ simp e (omega arith, λ c. (refl, c))
  ]

  bound-Mild :
      (empty : Bool) (cfg : BindingConfig) (r : Rabbit) → Mild 0 r (bound broker empty cfg r).1
  bound-Mild true cfg r = (omega arith, λ c. (refl, c))
  bound-Mild false cfg r = (omega arith, λ c. (refl, c))

  behind-Mild : (o : Op) (r : Rabbit) → Mild 10 r (behind broker o r)
  unfolding behind declare_queue bind_queue consume
  behind-Mild opens r = open_channel-Mild broker r
  behind-Mild closes r = closes-Mild r
  behind-Mild closes_channel r = closes_channel-Mild r
  behind-Mild consumes r =
      and_then-Mild 10 0 r (ensure_channel broker r) _ (ensure_channel-Mild broker r)
        λ _ r1. (omega arith, λ c. (refl, c))
  behind-Mild loses_connection r = (omega arith, λ c. (refl, c))
  behind-Mild loses_channel r = (omega arith, λ c. (refl, c))
  behind-Mild (declares cfg) r =
      and_then-Mild 10 0 r (ensure_channel broker r) _ (ensure_channel-Mild broker r)
        λ _ r1. declared-Mild broker (broker.declares r1.asked cfg) r1
  behind-Mild (binds cfg) r =
      and_then-Mild 10 0 r (ensure_channel broker r) _ (ensure_channel-Mild broker r)
        λ _ r1. bound-Mild (is_empty r1.queue) cfg r1

  behind_all-Mild :
      (ops : List Op) (r : Rabbit) → Mild (10 * length ops) r (behind_all broker ops r)
  unfolding behind_all
  behind_all-Mild [] r = (omega arith, λ c. (refl, c))
  behind_all-Mild (o ∷ ops) r =
      let (h, k) = behind-Mild o r in
      let (h1, k1) = behind_all-Mild ops (behind broker o r) in
      (omega (arith, h, h1), λ c. ((k1 (k c).1).0 ∙ (k c).0, (k1 (k c).1).1))

  close-closed : (r : Rabbit) → (close broker r).1.closed_flag ≡ true
  unfolding close
  close-closed r = elim (Bool-cases (is_open r.conn)) [ inl e ↦ simp e refl | inr e ↦ simp e refl ]

  close-dialed : (r : Rabbit) → (close broker r).1.dialed ≡ r.dialed
  unfolding close
  close-dialed r = elim (Bool-cases (is_open r.conn)) [ inl e ↦ simp e refl | inr e ↦ simp e refl ]

  open_connection-refused :
      (r : Rabbit) → r.closed_flag ≡ true → (open_connection broker r).0 ≡ refused connection_closed
  unfolding open_connection
  open_connection-refused r e = rw e refl

  -- Whatever operations and losses of connections come before a call of Close and after it: those
  -- before it have dialed at most ten times each, neither it nor those after it dial at all, and
  -- from then on opening the connection is refused.
  pub close-StaysClosed :
      (before after : List Op) (r : Rabbit)
      → ((behind_all broker before r).dialed ≤ r.dialed + 10 * length before)
        × ((behind_all broker after (close broker (behind_all broker before r)).1).dialed
            ≡ (behind_all broker before r).dialed)
        × ((open_connection broker
              (behind_all broker after (close broker (behind_all broker before r)).1)).0
            ≡ refused connection_closed)
  close-StaysClosed before after r =
      let r1 = behind_all broker before r in
      let r2 = (close broker r1).1 in
      let (same, shut) = (behind_all-Mild after r2).1 (close-closed r1) in
      (
        (behind_all-Mild before r).0,
        same ∙ close-dialed r1,
        open_connection-refused (behind_all broker after r2) shut,
      )
