-- ===== src/SetupCommunication.antt =====
-- `SetupCommunication` of internal/app/journey/journey_services/guest_communication.go: the queue of a
-- guest is declared, bound and consumed, and the bus listens to it.
pub mod Opened
use kenshu_elaris_project_gu.Prelude.{
  Bool, List, Option, false, if◌then◌else◌, none, not, some, true, ◌++◌, ◌∷◌,
}
use kenshu_elaris_project_gu.Bus.{GuestBus, new_bus}
use kenshu_elaris_project_gu.Domain.{State}
use kenshu_elaris_project_gu.GoText.{Text, is_empty, text}
use kenshu_elaris_project_gu.Wiring.{Wiring}
use kenshu_elaris_project_gu.World.{
  Error, Outcome, bind_failed, consume_failed, declare_failed, err, guest_id_is_empty, invalid_bus,
  invalid_consumer, ok, state_is_nil,
}

-- internal/config/rabbitmq_config.go
pub record QueueConfig : Type 0 where
  pub name : Text
  pub durable : Bool
  pub auto_delete : Bool
  pub exclusive : Bool
  pub no_wait : Bool

pub record BindingConfig : Type 0 where
  pub exchange_name : Text
  pub routing_key : Text
  pub no_wait : Bool

pub record RabbitMqConsumerConfig : Type 0 where
  pub queue : QueueConfig
  pub binding : BindingConfig

-- The calls of `port.RabbitConsumer`.
pub data ConsumerCall : Type 0 where
  declare_queue : QueueConfig → ConsumerCall
  bind_queue : BindingConfig → ConsumerCall
  consume : ConsumerCall
  close_channel : ConsumerCall

-- The consumer: which pointers are set, and which of its calls succeed.
pub record Consumer : Type 0 where
  pub consumer_set : Bool
  pub bus_set : Bool
  pub declares : QueueConfig → Bool
  pub binds : BindingConfig → Bool
  pub consumes : Bool

-- The journey's line to the message queue: the calls made, the latest first, whether the bus has a
-- consumer, and the bus.
pub record Line : Type 0 where
  pub calls : List ConsumerCall
  pub listening : Bool
  pub bus : GuestBus

abbrev pub guest_communication_exchange : Text
guest_communication_exchange = text "ex.communication"

abbrev pub guest_queue_prefix : Text
guest_queue_prefix = text "q.guest."

abbrev pub guest_routing_key_prefix : Text
guest_routing_key_prefix = text "guest."

abbrev pub called : ConsumerCall → Line → Line
called c line = record line { calls = c ∷ line.calls }

-- A call; if it fails, the channel is closed and its error returned.
abbrev pub attempt :
    Bool
    → ConsumerCall
    → Error
    → (Line → Outcome (Unit {0}) × Line)
    → Line
    → Outcome (Unit {0}) × Line
attempt true c e more line = more (called c line)
attempt false c e more line = (err e, called close_channel (called c line))

-- `state.QueueName` and `state.RoutingKey`
abbrev pub named_state : State → State
named_state s = record s {
  queue_name = guest_queue_prefix ++ s.guest_id;
  routing_key = guest_routing_key_prefix ++ s.guest_id;
}

unfoldable pub queue_config : RabbitMqConsumerConfig → State → QueueConfig
queue_config cfg s = record (cfg.queue) { name = s.queue_name; durable = false; auto_delete = true }

unfoldable pub binding_config : RabbitMqConsumerConfig → State → BindingConfig
binding_config cfg s = record (cfg.binding) {
  exchange_name =
      if is_empty cfg.binding.exchange_name
      then guest_communication_exchange
      else cfg.binding.exchange_name;
  routing_key = s.routing_key;
}

-- `bus.Reset()`, the consumer set, and `bus.Start`
abbrev pub start_listening : Line → Outcome (Unit {0}) × Line
start_listening line = (ok tt, record line { listening = true; bus = new_bus })

-- `SetupCommunication` behind its guards, at the state with the names set
unfoldable pub open_line :
    Consumer → RabbitMqConsumerConfig → State → Line → Outcome (Unit {0}) × Line
open_line consumer cfg s =
    let q = queue_config cfg s in
    let b = binding_config cfg s in
    attempt (consumer.declares q) (declare_queue q) declare_failed (
      attempt (consumer.binds b) (bind_queue b) bind_failed
        (attempt consumer.consumes consume consume_failed start_listening))

-- The guards of `SetupCommunication`
unfoldable pub setup_fault : Consumer → Wiring → State → Option Error
setup_fault consumer d s =
    if not d.state_set
    then some state_is_nil
    else if is_empty s.guest_id
    then some guest_id_is_empty
    else if not consumer.consumer_set
    then some invalid_consumer
    else if not consumer.bus_set
    then some invalid_bus
    else none

-- A guard that fails changes nothing.
abbrev pub unless_fault :
    Option Error
    → RabbitMqConsumerConfig
    → Consumer
    → State
    → Line
    → (Outcome (Unit {0}) × State) × Line
unless_fault (some e) cfg consumer s line = ((err e, s), line)
unless_fault none cfg consumer s line =
    let opened = open_line consumer cfg (named_state s) line in
    ((opened.0, named_state s), opened.1)

-- `SetupCommunication`
unfoldable pub setup_communication :
    Consumer → RabbitMqConsumerConfig → Wiring → State → Line → (Outcome (Unit {0}) × State) × Line
setup_communication consumer cfg d s line =
    unless_fault (setup_fault consumer d s) cfg consumer s line
