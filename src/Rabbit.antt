-- ===== src/Rabbit.antt =====
-- internal/infra/mq/rabbitmq_connection.go, rabbitmq_channel.go and rabbitmq_consumer.go: a connection that is
-- dialed again when it was lost, the channel on it, and the consumer on the channel.
pub mod Dials
use kenshu_elaris_project_gu.Prelude.{
  Bool, Option, [], false, if◌then◌else◌, ltb, none, some, suc, true, zero, ℕ,
}
use kenshu_elaris_project_gu.GoText.{Text, is_empty}
use kenshu_elaris_project_gu.SetupCommunication.{BindingConfig, QueueConfig}

-- The errors of the wrapper and those that it passes on.
pub data MqError : Type 0 where
  connection_closed dial_refused channel_refused declaration_refused : MqError
  queue_not_declared binding_refused consumption_refused closing_refused : MqError

pub data Tried (A : Type 0) : Type 0 where
  returned : A → Tried A
  refused : MqError → Tried A

-- What becomes of a request for a channel: made, refused, or refused since the connection is lost.
pub data ChannelFate : Type 0 where
  made refused_open refused_lost : ChannelFate

-- The library and the server, by the number of the dial or of the request.
pub record Broker : Type 0 where
  pub dials : ℕ → Bool
  pub channels : ℕ → ChannelFate
  pub declares : ℕ → QueueConfig → Option Text
  pub binds : ℕ → Text → BindingConfig → Bool
  pub consumes : ℕ → Text → Bool
  pub closes : ℕ → Bool

-- The connection, the channel and the consumer. Of a connection or a channel that was made, whether it
-- is open.
pub record Rabbit : Type 0 where
  pub conn : Option Bool
  pub closed_flag : Bool
  pub channel : Option Bool
  pub queue : Text
  pub dialed : ℕ
  pub asked : ℕ
  pub slept : ℕ  -- how often it waited for `rabbitDialBackoff`

abbrev pub Call : Type 0 → Type 0
Call A = Rabbit → Tried A × Rabbit

abbrev pub and_then : {A B : Type 0} → Tried A × Rabbit → (A → Call B) → Tried B × Rabbit
and_then (returned a, r) f = f a r
and_then (refused e, r) f = (refused e, r)

abbrev pub rabbit_dial_attempts : ℕ
rabbit_dial_attempts = 5

-- `conn != nil && !conn.IsClosed()`
abbrev pub is_open : Option Bool → Bool
is_open none = false
is_open (some b) = b

-- `IsConnectionOpen`
unfoldable pub is_connection_open : Rabbit → Bool
is_connection_open r = is_open r.conn

module _ (broker : Broker) where
  -- The loop of `reconnectLocked`, by the attempts that are left; it sleeps behind each but the last.
  unfoldable pub dial : ℕ → Call (Unit {0})
  dial zero r = (refused dial_refused, r)
  dial (suc n) r =
      let again =
        dial n
          (record r { dialed = suc r.dialed; slept = if ltb 0 n then suc r.slept else r.slept }) in
      if broker.dials r.dialed
      then (returned tt, record r { dialed = suc r.dialed; conn = some true })
      else again

  -- `reconnectLocked`
  unfoldable pub reconnect_locked : Call (Unit {0})
  reconnect_locked r =
      if r.closed_flag then (refused connection_closed, r) else dial rabbit_dial_attempts r

  -- `openConnection`
  unfoldable pub open_connection : Call (Unit {0})
  open_connection r =
      if r.closed_flag
      then (refused connection_closed, r)
      else if is_open r.conn
      then (returned tt, r)
      else reconnect_locked r

  -- `Close`; a connection that was asked to close is not open, whatever the answer.
  unfoldable pub close : Call (Unit {0})
  close r =
      if is_open r.conn
      then (
        if broker.closes r.asked then returned tt else refused closing_refused,
        record r { closed_flag = true; conn = some false; asked = suc r.asked },
      )
      else (returned tt, record r { closed_flag = true })

  abbrev pub got_channel : Rabbit → Rabbit
  got_channel r = record r { channel = some true; asked = suc r.asked }

  -- `conn.Channel()` for the second time
  abbrev pub second_request : ChannelFate → Call (Unit {0})
  second_request made r = (returned tt, got_channel r)
  second_request refused_open r = (refused channel_refused, record r { asked = suc r.asked })
  second_request refused_lost r =
      (refused channel_refused, record r { asked = suc r.asked; conn = some false })

  -- `conn.Channel()` for the first time: on a lost connection it is opened and asked once more.
  abbrev pub first_request : ChannelFate → Call (Unit {0})
  first_request made r = (returned tt, got_channel r)
  first_request refused_open r = (refused channel_refused, record r { asked = suc r.asked })
  first_request refused_lost r =
      and_then (open_connection (record r { asked = suc r.asked; conn = some false }))
        (λ _ r1. second_request (broker.channels r1.asked) r1)

  -- `openChannel`
  unfoldable pub open_channel : Call (Unit {0})
  open_channel r =
      and_then (open_connection r) (λ _ r1. first_request (broker.channels r1.asked) r1)

  -- `CloseChannel`
  unfoldable pub close_channel : Call (Unit {0})
  close_channel r =
      if is_open r.channel
      then (
        if broker.closes r.asked then returned tt else refused closing_refused,
        record r { channel = some false; asked = suc r.asked },
      )
      else (returned tt, r)

  -- `if c.channel == nil || c.channel.IsClosed() { c.reopenChannel(ctx) }`
  unfoldable pub ensure_channel : Call (Unit {0})
  ensure_channel r =
      let reopened = open_channel r in if is_open r.channel then (returned tt, r) else reopened

  abbrev pub declared : Option Text → Call (Unit {0})
  declared none r = (refused declaration_refused, record r { asked = suc r.asked })
  declared (some name) r = (returned tt, record r { asked = suc r.asked; queue = name })

  -- `DeclareQueue`
  unfoldable pub declare_queue : QueueConfig → Call (Unit {0})
  declare_queue cfg r =
      and_then (ensure_channel r) (λ _ r1. declared (broker.declares r1.asked cfg) r1)

  -- `BindQueue` behind its channel, given whether the queue's name is empty.
  abbrev pub bound : Bool → BindingConfig → Call (Unit {0})
  bound true cfg r = (refused queue_not_declared, r)
  bound false cfg r = (
    if broker.binds r.asked r.queue cfg then returned tt else refused binding_refused,
    record r { asked = suc r.asked },
  )

  -- `BindQueue`
  unfoldable pub bind_queue : BindingConfig → Call (Unit {0})
  bind_queue cfg r = and_then (ensure_channel r) (λ _ r1. bound (is_empty r1.queue) cfg r1)

  -- `Consume`
  unfoldable pub consume : Call (Unit {0})
  consume r = and_then (ensure_channel r) (λ _ r1. (
    if broker.consumes r1.asked r1.queue then returned tt else refused consumption_refused,
    record r1 { asked = suc r1.asked },
  ))

  -- `NewRabbitMqConnection`
  unfoldable pub new_connection : Tried (Unit {0}) × Rabbit
  new_connection = reconnect_locked (record {
    conn = none;
    closed_flag = false;
    channel = none;
    queue = [];
    dialed = 0;
    asked = 0;
    slept = 0;
  })

  -- `NewRabbitmqConsumer` on the connection
  unfoldable pub new_consumer : Call (Unit {0})
  new_consumer r = open_channel (record r { channel = none; queue = [] })
