-- ===== src/Lib.antt =====
-- A food ordering system of several services: a kitchen gateway takes requests, the order service
-- keeps orders and their life cycle, the catalog service prices items, and the partner service sends
-- new orders to restaurants and takes their decisions. The services talk by events: each writes its
-- events to an outbox table with its other writes, a relay publishes them, and a receiver keeps an
-- inbox of event ids.
--
-- The parts and their files:
--   * Prelude: Boolean tests, lists, results, maps and texts, and Prelude/Words the wrap-around of
--     int32 and int64, which are bit patterns below 2 ^ 32 and 2 ^ 64.
--   * Database: database/sql. A body of statements runs on the tables under a plan of faults: each call
--     is fine, fails, or reaches the database and loses its reply. A transaction is one step for the
--     others, because the code takes advisory and row locks.
--   * Events: internal/platform/events and internal/contracts.
--   * Order: internal/order. Order/Status and Order/Domain are the domain package, Order/Service the
--     application package over its ports, Order/Memory the memory package, Order/CatalogAdapter
--     adapters/catalogmemory, and Order/Flow the service over that store. A sequence of calls is the
--     relation FreshReach of Order/Memory/Replay. Order/Postgres is the postgres package over the tables of
--     migrations/order (Tables, Rows): Shows, in View, relates tables to a memory store.
--     Order/KafkaHandler is the kafkahandler package.
--   * Catalog: the types of internal/catalog/domain, internal/catalog/memory (Memory), and
--     internal/catalog/postgres (Postgres) over the tables of migrations/catalog.
--   * Platform: internal/platform/outbox (Relay), the statement that claims rows (Claims), and
--     internal/order/postgres/outbox.go (Outbox), which fills the interface of the relay. Consumer is
--     internal/platform/kafkaconsume, Publisher internal/platform/kafkapub and Migrations
--     internal/platform/migrations.
--   * Partner: internal/partner. Intake is application, CallbackService callback, Store, Callbacks and
--     Submissions and Outbox postgres, Dispatch dispatch, RestaurantClient restaurantclient and
--     KafkaHandler kafkahandler.
--   * Sample: internal/sample/httpapi, as critical sections that interleave.
--   * Tests: runs on concrete values.
--
-- Encoders, decoders, digests, clocks, ids, the broker and the network are arguments. A JSONB payload
-- stands in its row as the text that was inserted, and the text that the database gives back for it is
-- the argument `jsonb` of what reads it. The loops of
-- Relay and Dispatch run for as many polls as there are before the context is cancelled, which is a
-- number that the theorems leave open. The clock of the database gives any value at each statement.
-- `Run` of the consumer and its retry loops run on fuel: Platform/Consumer/Progress shows how much of it
-- gets through calls that fail for a while, and how much lets a cancelled context end the loops.
--
-- Not modelled: the gRPC and HTTP layers, which convert messages;
-- configuration, servers and commands are input and output.
pub mod Prelude
pub mod Database
pub mod Events
pub mod Catalog
pub mod Platform
pub mod Order
pub mod Partner
pub mod Sample
pub mod Tests
