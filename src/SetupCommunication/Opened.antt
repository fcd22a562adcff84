-- ===== src/SetupCommunication/Opened.antt =====
-- On `SetupCommunication`: the line that it leaves.
use kenshu_elaris_project_gu.Prelude.{
  Bool, List, Option, [], false, if◌then◌else◌, inl, inr, none, refl, some, true, ◌++◌, ◌∷◌, ◌≡◌,
  ◌≢◌, ◌⊎◌,
}
use kenshu_elaris_project_gu.Bus.{new_bus}
use kenshu_elaris_project_gu.Domain.{State}
use kenshu_elaris_project_gu.GoText.{Text, is_empty, text}
use kenshu_elaris_project_gu.SetupCommunication.{
  BindingConfig, Consumer, ConsumerCall, Line, QueueConfig, RabbitMqConsumerConfig, attempt,
  bind_queue, binding_config, close_channel, consume, declare_queue, named_state, open_line,
  queue_config, setup_communication, setup_fault, start_listening, unless_fault,
}
use kenshu_elaris_project_gu.Wiring.{Wiring}
use kenshu_elaris_project_gu.World.{
  Error, Outcome, bind_failed, consume_failed, declare_failed, err, ok,
}

-- The state carries the names of the guest's queue, and is as before otherwise.
pub record Named (s s' : State) : Type 0 where
  pub queue : s'.queue_name ≡ text "q.guest." ++ s.guest_id
  pub routing : s'.routing_key ≡ text "guest." ++ s.guest_id
  pub same_id : s'.guest_id ≡ s.guest_id
  pub same_guest : s'.guest ≡ s.guest
  pub same_redis_key : s'.redis_key ≡ s.redis_key
  pub same_cottages : s'.cottage_names ≡ s.cottage_names

-- The guest's queue, which is not durable and is deleted when it is no longer used.
pub record IsGuestQueue (cfg : QueueConfig) (s : State) (q : QueueConfig) : Type 0 where
  pub its_name : q.name ≡ text "q.guest." ++ s.guest_id
  pub not_durable : q.durable ≡ false
  pub deleted : q.auto_delete ≡ true
  pub same_exclusive : q.exclusive ≡ cfg.exclusive
  pub same_no_wait : q.no_wait ≡ cfg.no_wait

-- The binding of the guest's routing key to the configured exchange, or to the default one if none is
-- configured.
pub record IsGuestBinding (cfg : BindingConfig) (s : State) (b : BindingConfig) : Type 0 where
  pub its_key : b.routing_key ≡ text "guest." ++ s.guest_id
  pub default_exchange : cfg.exchange_name ≡ [] → b.exchange_name ≡ text "ex.communication"
  pub configured_exchange : cfg.exchange_name ≢ [] → b.exchange_name ≡ cfg.exchange_name
  pub same_no_wait : b.no_wait ≡ cfg.no_wait

-- The queue and the binding of the guest, then the consumption, each of which succeeded; the bus is
-- new and listens.
pub record Opened (consumer : Consumer) (cfg : RabbitMqConsumerConfig) (s : State) (line : Line)
    (r : (Outcome (Unit {0}) × State) × Line) : Type 0 where
  pub returned : r.0.0 ≡ ok tt
  pub named : Named s r.0.1
  pub q : QueueConfig
  pub queue : IsGuestQueue cfg.queue s q
  pub b : BindingConfig
  pub binding : IsGuestBinding cfg.binding s b
  pub three_calls : r.1.calls ≡ consume ∷ bind_queue b ∷ declare_queue q ∷ line.calls
  pub was_declared : consumer.declares q ≡ true
  pub was_bound : consumer.binds b ≡ true
  pub consumed : consumer.consumes ≡ true
  pub listens : r.1.listening ≡ true
  pub fresh : r.1.bus ≡ new_bus

queue_config-IsGuestQueue :
    (cfg : RabbitMqConsumerConfig) (s : State)
    → IsGuestQueue cfg.queue s (queue_config cfg (named_state s))
unfolding queue_config
queue_config-IsGuestQueue cfg s = record {
  its_name = refl;
  not_durable = refl;
  deleted = refl;
  same_exclusive = refl;
  same_no_wait = refl;
}

binding_config-IsGuestBinding :
    (cfg : RabbitMqConsumerConfig) (s : State)
    → IsGuestBinding cfg.binding s (binding_config cfg (named_state s))
unfolding binding_config
binding_config-IsGuestBinding cfg s = record {
  its_key = refl;
  default_exchange = λ e. rw e refl;
  configured_exchange = configured cfg.binding.exchange_name;
  same_no_wait = refl;
}
  where
    configured :
        (name : Text) → name ≢ [] → (if is_empty name then text "ex.communication" else name) ≡ name
    configured [] n = absurd (n refl)
    configured (x ∷ xs) n = refl

-- An error, with the bus as it was; the calls, if there were any, end in the closing of the channel.
pub record GivenUp (line : Line) (r : (Outcome (Unit {0}) × State) × Line) : Type 0 where
  pub error : Error
  pub returned : r.0.0 ≡ err error
  pub listens_as_before : r.1.listening ≡ line.listening
  pub same_bus : r.1.bus ≡ line.bus
  pub closed_last :
      (r.1.calls ≡ line.calls) ⊎ ((c : List ConsumerCall) × (r.1.calls ≡ close_channel ∷ c))

behind_guards :
    (consumer : Consumer) (cfg : RabbitMqConsumerConfig) (s : State) (line : Line) (x y z : Bool)
    → consumer.declares (queue_config cfg (named_state s)) ≡ x
    → consumer.binds (binding_config cfg (named_state s)) ≡ y
    → consumer.consumes ≡ z
    → (let q = queue_config cfg (named_state s) in
        let b = binding_config cfg (named_state s) in
        let o =
          attempt x
            (declare_queue q)
            declare_failed
            (attempt y
              (bind_queue b)
              bind_failed
              (attempt z consume consume_failed start_listening))
            line in
        Opened consumer cfg s line ((o.0, named_state s), o.1)
        ⊎ GivenUp line ((o.0, named_state s), o.1))
behind_guards consumer cfg s line true true true was_declared was_bound consumed = inl (record {
  returned = refl;
  named = record {
    queue = refl;
    routing = refl;
    same_id = refl;
    same_guest = refl;
    same_redis_key = refl;
    same_cottages = refl;
  };
  q = queue_config cfg (named_state s);
  queue = queue_config-IsGuestQueue cfg s;
  b = binding_config cfg (named_state s);
  binding = binding_config-IsGuestBinding cfg s;
  three_calls = refl;
  was_declared = was_declared;
  was_bound = was_bound;
  consumed = consumed;
  listens = refl;
  fresh = refl;
})
behind_guards consumer cfg s line true true false was_declared was_bound consumed = inr (record {
  error = consume_failed;
  returned = refl;
  listens_as_before = refl;
  same_bus = refl;
  closed_last = inr (_, refl);
})
behind_guards consumer cfg s line true false z was_declared was_bound consumed = inr (record {
  error = bind_failed;
  returned = refl;
  listens_as_before = refl;
  same_bus = refl;
  closed_last = inr (_, refl);
})
behind_guards consumer cfg s line false y z was_declared was_bound consumed = inr (record {
  error = declare_failed;
  returned = refl;
  listens_as_before = refl;
  same_bus = refl;
  closed_last = inr (_, refl);
})

unless_fault-Opened :
    (fault : Option Error) (consumer : Consumer) (cfg : RabbitMqConsumerConfig) (s : State)
    (line : Line)
    → Opened consumer cfg s line (unless_fault fault cfg consumer s line)
      ⊎ GivenUp line (unless_fault fault cfg consumer s line)
unfolding open_line
unless_fault-Opened none consumer cfg s line =
    behind_guards consumer cfg s line (consumer.declares (queue_config cfg (named_state s)))
      (consumer.binds (binding_config cfg (named_state s))) consumer.consumes refl refl refl
unless_fault-Opened (some e) consumer cfg s line = inr (record {
  error = e;
  returned = refl;
  listens_as_before = refl;
  same_bus = refl;
  closed_last = inl refl;
})

-- A setup either opens the line of the guest or fails. The open line has the queue and the routing key
-- of the guest's id, in the state as in the three successful calls, made in their order; the queue is
-- not durable and deletes itself, the exchange is the default one unless one is configured, all other
-- settings are the configured ones, and a new bus listens. If it fails, the bus and whether it
-- listens are as before, and either no call was made or the last call was the closing of the channel.
pub setup_communication-Opened :
    (consumer : Consumer) (cfg : RabbitMqConsumerConfig) (d : Wiring) (s : State) (line : Line)
    → Opened consumer cfg s line (setup_communication consumer cfg d s line)
      ⊎ GivenUp line (setup_communication consumer cfg d s line)
unfolding setup_communication
setup_communication-Opened consumer cfg d s line =
    unless_fault-Opened (setup_fault consumer d s) consumer cfg s line
