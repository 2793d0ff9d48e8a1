-- ===== src/Lib.antt =====
-- The Python programs of the advertisement pipeline: a load generator makes viewers' events and
-- sends them to the collector; Flink counts them by the minute; redis-writer copies these counts
-- to Redis; the Spark jobs settle the archived events and compare both counts; a player, a tracer
-- and a dashboard show what happens.
--
-- Base: library names, Boolean tests, lists on native numbers, integers, dicts, sorting, texts.
-- Event: the event dicts. Signing: `sign` and the pixel parameters of generator/emitter.py.
-- Calendar: `minute_key` of redis-writer/writer.py and player/app.py.
-- Generator.Stats, .Catalog, .AdDecision: generator/stats.py, catalog.py, addecision.py.
-- Generator.Emitter: generator/emitter.py. The event loop runs one callback at a time, so a method
--   is a function on the state, and a run is a list of callbacks (Loop). `asyncio.Task`s are data.
-- Generator.Main: the options, tasks and bursts of generator/main.py; Generator.Main.Speed, its
--   reporter, which corrects the speed of the clock; Generator.Main.Whole, the set-up and the end.
-- Generator.Users: generator/users.py, as functions on what a viewer has done so far.
-- Writer: redis-writer/writer.py. Redis is a record of commands and reads, with the documented laws
--   as records of their own: the clock and the time to live of keys (Writer.Clock), lists
--   (Writer.Queue), the index (Writer.Windows) and hashes (Writer.Upsert). A message is handled at an
--   instant that Redis's clock has reached, where keys whose time to live has ended are gone; where
--   that matters, the instants of the messages do not decrease (Writer.Steps). Every pipeline is
--   taken to be executed and answered. Writer.Summary and Writer.Api are its HTTP interface, Writer.Tally its errors,
--   and Writer.Upsert.Served what the interface says of what the consumer read.
-- Settlement.Batch: the tables of spark/batch_settlement.py, over a record of Spark's operations.
--   Settlement.Reconcile: the comparison of spark/reconcile.py, and Settlement.Reconcile.Fetch, what
--   it compares, which is written by the other two and by Flink. Settlement.Stored: the table
--   `minute_settlement` between the two jobs. Settlement.Engine: lists as a Spark.
-- Player: player/app.py; Player.Trace follows an advertisement through Redis and Kafka, and
--   Player.Inspect through the archive and PostgreSQL too. Player.Http has the calls of the
--   collector, and Player.Page the styles of player/catalog.py and the nudge of the watermark.
-- Tracer: tracer/app.py, the test events that it sends (Tracer.Kinds for their descriptions), and
--   Tracer.Trace and Tracer.Inspect, where it looks for them. It keeps traces as the player keeps
--   advertisements, by Base.Evict, and its archive's answers by the player's cache.
-- Dashboard: dashboard/api.py, the rates, the sums over replicas and the lag; Dashboard.Labels, the
--   sums by label; Dashboard.Flink, Dashboard.Samplers and Dashboard.Sampler, the samples of the
--   services and the sampling thread.
-- Docs: scripts/ci/check_docs.py, the check of the links in the documents.
--
-- Numbers are natural, and integers where a difference can be negative. A probability is a number
-- of the 2^53 values that `random()` draws from; times are milliseconds or seconds, as the source
-- has them. Recursion is structural but for two loops, which go by fuel: the pieces of a batch, where
-- its length is enough, as no piece is empty; and a viewer's sessions, where one more than the number
-- of looks after which the stop event stays set is enough.
--
-- Not modelled: the Kotlin services, the SQL, the connection code of Kafka, Redis, PostgreSQL and
-- MinIO, the start-up and printing of the programs, the pages, the browser's captures, and the
-- end-to-end tests. HMAC, `fromisoformat`, `json.dumps`, regular expressions, the file system and
-- the services' answers are arguments. Not modelled either are failures of Redis in the
-- consumer, and requests for the archive's answers that overlap. Speeds are fractions where the source
-- has floats, and the percentile is taken exactly, which for the 0.95 and the at most 5000 samples of
-- the source is what its floats give.
pub mod Base
pub mod Event
pub mod Signing
pub mod Calendar
pub mod Writer
pub mod Generator
pub mod Settlement
pub mod Player
pub mod Tracer
pub mod Dashboard
pub mod Docs
