-- ===== src/Lib.antt =====
-- The guest simulator: a Go program that plays the guests of a cottage rental. Each journey
-- registers a guest, walks a random graph of booking steps against the cottage service, waits for
-- messages of other services, pays the invoice and lives through the stay over a websocket. What a
-- journey knows is kept in memory (`State`) and, as JSON, in Redis.
--
-- Paths are from the repository's root. A step's `Validate` and `Execute` are `validate` and
-- `execute` of the module named for it.
--
--   GoText, GoTime     what the program uses of Go's strings and of the packages strings and time.
--                      Times are nanoseconds since year 1, all in UTC; `Sub` saturates as Go's does
--   Domain             internal/domain/state.go and internal/domain/dto
--   World              one journey's view of the world: its state, the Redis server, the HTTP services
--                      and the errors. `Action` is a function that returns an outcome, a panic
--                      included, and the new world. Every answer of the outside, faults included, is
--                      read from `Env`, a parameter of all theorems, and so is whether the steps that
--                      follow their HTTP client or the clock without a test were given one.
--                      World/Rules: rules for chains
--   Cache              internal/infra/redis/cache.go and the commands of internal/infra/redis/redis.go;
--                      a command can be lost on its way to the server or on the way back. The JSON
--                      codec is a parameter, with the hypothesis `RoundTrips` where it matters
--   Wiring             which pointers the steps were built with
--   ListCottages, SelectCottage, SelectPeriod, BookCottage
--                      internal/app/steps/booking_step. SelectPeriod/Nearest is
--                      `pickNearestSuitablePeriod`, SelectPeriod/Ranking the order of the candidates
--                      and `uniqueStayCandidates`; the modules below them hold the proofs
--   PayInvoice         internal/app/steps/payment_step/pay_invoice.go
--   RegisterGuest, RetrieveGuest
--                      internal/app/steps/register_guest_step
--   GoFloat            the float64 of Go: the patterns of IEEE 754 with exact sums and products, rounded
--                      to the nearest float, to even at a tie
--   Selector           internal/app/services/step_selector_service.go. First: which item it picks
--   Flow               internal/app/flows/flow.go, with fuel for the rounds of its loop: the theorems
--                      hold for every fuel
--   BookingFlow        internal/config/booking_flow.go and internal/app/flows/booking_flow.go
--   RegisterFlow, PaymentFlow
--                      internal/config/guest_register_flow.go, payment_flow.go and the flows of the
--                      same names in internal/app/flows; fuel of 3 and 2 is one round for each step
--   Lodging            internal/app/steps/lodging_step/run_lodging.go and internal/config/lodging_flow.go.
--                      The messages, the acknowledgements and the hours that arrive are parameters, so
--                      each waiting loop is recursion on what still arrives. Plan: the plans; Chat: the
--                      waits; Gate: the phases; Enter: validation and cache; Stay: the whole step
--   Bus                internal/app/journey/journey_services/guest_communication_bus.go; the decoding of
--                      a body is a parameter. Messages: what is read of the messages; Kept and Kinds:
--                      what becomes of them
--   Waits              wait_payment_request.go, wait_booking_confirmation.go and wait_checkin_today.go of
--                      the same directory; a wait is recursion on its rounds, each of which ends with a
--                      message, the end of the bus or the end of the context
--   JourneyCache       internal/app/journey/journey_services/cache_service.go and cleanup_service.go, and
--                      `cleanupGuestJourney` of internal/app/journey/guest_journey.go
--   SetupCommunication internal/app/journey/journey_services/guest_communication.go; the calls of the
--                      consumer are recorded, and whether they succeed is a parameter
--   CreateGuest, GuestJourney
--                      internal/app/journey/guest_journey.go. A journey is a world, a line to the message
--                      queue and a chat; its stages are the flows, the waits and the cleanup, and what
--                      arrives meanwhile is a parameter (`Surroundings`). Silent and Rules: what
--                      its stages add; Sends and Leaves: its theorems
--   LodgingRun         internal/app/flows/lodging_flow.go
--   Quiet              rules for what an action adds to a number read off the requests sent
--   ChatClient         internal/infra/websocket/lodging_chat.go. What arrives is a list in the order in which
--                      the selects take it; the bound on the rounds of the wait is one more than the
--                      messages that it can take. Reader: the reading goroutine; Fifo and Inbox: what
--                      the calls leave, and the inbox over which Lodging is modelled; Awaited: the waits
--                      of the lodging step over the client
--   TimeEvents         internal/app/services/time_event_service.go and hour_notification_service.go: one
--                      step relation for the service and the goroutines of its subscribers
--   Process            internal/main.go and internal/infra/init.go. Closed: the exits and the shutdown; Level: the
--                      loop of the journeys, a step relation
--   Rabbit             internal/infra/mq; the AMQP library and the server are parameters. Dials: its theorem
--   Readiness          internal/transport/http/probe/readiness.go
--   Witness            the theorems at concrete inputs
--
-- Not modelled: the generated protobuf code, telemetry and logging, which no decision reads; the
-- construction of clients and the reading of the configuration; the HTTP server of the probes. Redis,
-- RabbitMQ, the websocket library, the clock and the HTTP services are parameters. A date in a request
-- is the number of the day that it names. A wait is followed up to its end: of one to which neither a
-- message nor the end of its context ever comes, which blocks for ever, nothing is said. The channels
-- of the chat client have no bound; in the program the reader stops while 32 acknowledgements stand
-- unread.
mod Prelude
pub mod GoFloat
pub mod GoText
pub mod GoTime
pub mod Domain
pub mod World
pub mod Cache
pub mod SelectPeriod
pub mod Wiring
pub mod ListCottages
pub mod SelectCottage
pub mod BookCottage
pub mod PayInvoice
pub mod RegisterGuest
pub mod RetrieveGuest
pub mod Selector
pub mod Flow
pub mod BookingFlow
pub mod RegisterFlow
pub mod PaymentFlow
pub mod Lodging
pub mod Bus
pub mod Waits
pub mod JourneyCache
pub mod SetupCommunication
pub mod CreateGuest
pub mod LodgingRun
pub mod GuestJourney
pub mod Quiet
pub mod ChatClient
pub mod TimeEvents
pub mod Process
pub mod Rabbit
pub mod Readiness
mod Witness
