-- ===== src/Lib.antt =====
-- The services of this repository (users, products, orders, payments, notifications, gateway) and
-- what holds of them.
--
-- Parts, and the files that model them:
--   Order/*         internal/order: the event-sourced aggregate (Aggregate), the event_store table
--                   (EventStore), the commands (Command), the NATS publisher (Publisher), the
--                   projector and the Redis read model (Projector, ReadRepository), the subscriber
--                   of payment events (PaymentSubscriber), the gRPC servers (Server).
--                   Order.History has the histories that event_store can hold, and shows the handlers
--                   as its steps; Order.Reservations has what PlaceOrder and CancelOrder do to the stocks,
--                   with the interface IsLedger that Wiring.Ledger fills.
--   Payment/*       internal/payment: table, publisher, subscriber of created orders, gRPC server.
--   Product/*       internal/product: table, service, gRPC server.
--   User/*          internal/user: table, service, gRPC server.
--   Auth/*          pkg/auth: JWT manager, resolvers of a user's secret, interceptor.
--   Notification/*  internal/notification: bridge, subscriber, mails, log.
--   Gateway, Interceptors, Grpc, Nats: internal/gateway, pkg/interceptors, pkg/health, pkg/errors.
--   Wiring/*        the services connected to each other (cmd): orders with the product service that
--                   they call, with the payment service that pays them, logins with the interceptor.
--   Base/*          texts, integers, results, actions, tables: shared by the parts.
-- A function has the name of the Go function in small letters (PlaceOrder is place_order); a Go
-- struct is a record, `(value, error)` is `Result`.
--
-- How they interact: the order service calls the product service (Order.Services.ProductClient),
-- stores events and publishes them; the payment service pays for each orders.created and publishes
-- payments.completed, which the order service's subscriber turns into a paid order; the projector
-- keeps the views that the queries read. Every service but the notification service and the
-- gateway runs its handlers behind Auth.Interceptor.
--
-- State and failures: a handler is an action on the part of the state that it can change. Each
-- call of a database, of NATS, of Redis or of another service is numbered, and the environment
-- says whether it goes through, is refused, or has its effect but answers an error
-- (Base.Action.Outcome); the environment also gives the times, uuids and serial numbers, the order in
-- which a query meets the rows of its table (which decides between rows of one sort key), and the row
-- after which a query's connection drops. Step and Reach of Order.History.Interleaving are the
-- committed inserts of any number of handlers in any order. Order.History.Service.serve_all and
-- Payment.Books.serve_all run one request or message after the other.
--
-- Parameters: encoding/json, the JWT library, bcrypt, Redis and the product client are records of
-- functions; IsFaithful, IsLawful, IsSound, IsHash and IsStore state their documented behaviour.
-- IsSound.refuses asks that a token is refused under every secret but its own, which HS256 gives up to
-- collisions and to short keys that end in zero bytes.
--
-- Bounds: int64 and int32 wrap-around is written out (Base.Int.wrap64, wrap32); PostgreSQL's INT and
-- VARCHAR(n) refuse what does not fit. A time is a natural number of nanoseconds, and a
-- TIMESTAMPTZ column keeps it whole (PostgreSQL rounds it to microseconds). All loops are over
-- lists and need no fuel, but the printing of a number, whose fuel is the number and one.
--
-- Not modelled: the start of the services (connections, environment variables, signals, log
-- lines), generated code, the front end; that the services run on several machines shows only in
-- the outcomes of calls and in the interleavings.
pub mod Base
pub mod Grpc
pub mod Nats
pub mod Interceptors
pub mod Gateway
pub mod Auth
pub mod User
pub mod Product
pub mod Payment
pub mod Order
pub mod Notification
pub mod Wiring
