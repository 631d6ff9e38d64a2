-- ===== src/Lib.antt =====
-- Verification of iot-backend: a multi-tenant service that takes telemetry from devices over
-- MQTT, keeps the latest reading of each device, sends readings to browsers over WebSockets, and
-- manages the users, locations, devices and exports of organizations over an HTTP API on
-- PostgreSQL.
--
-- The program's parts, and the modules that model them:
--   internal/models (models.go)            Models: the records, roles and statuses
--   internal/state (store.go)              State: the latest reading of each device
--   internal/iot (topic.go)                Topic: printing and parsing telemetry topics, with
--                                          deviceIdentifierFromTopic of internal/telemetry
--   internal/repository (postgres.go)      Repository: the tables with the constraints of
--                                          migrations/, and one function for each method of Postgres
--   internal/auth (jwt.go)                 Auth: from the claims of a token to a principal, and
--                                          the tokens of the development login
--   internal/api (users.go, handlers.go,   Api: the shape of a handler, the checks of input, the
--     exports.go, json.go, internal.go)    middleware and guards, the handlers of users, locations,
--                                          devices and exports, the overview and the login
--   internal/ws (hub.go)                   Hub: connections, authentication, filters and broadcasts
--   internal/telemetry (ingest.go)         Telemetry: HandleMQTT from topic and payload to the
--                                          store, the hub and the sinks
--   internal/archive (keys.go, csv.go,     Archive: the keys of objects, the rows of records, the
--     merge.go, writer.go)                 merge of objects into one CSV, and the buffering writer
--   internal/storage (store.go, key.go,    Storage: the interface of an object store, the names of
--     memory.go, filesystem.go)            objects, and the stores in memory and in a directory
--   internal/config (config.go)            Config: the settings from the environment and .env
--   internal/exportjob (worker.go)         Exportjob: the worker that runs queued export jobs
-- Base, Dict and Text hold what these share: tests on numbers, lists and options, and the
-- functions of Go's `strings` that the program calls. Tests holds runs on concrete inputs.
--
-- How they interact. The middleware of Api parses a request's token with Auth and looks its user
-- up in the database; a handler of Api then runs statements of Repository on the database, one
-- after another, and answers at the first that fails a check. HandleMQTT looks a device and its
-- organization up in the database, then writes the store of State, calls Broadcast of Hub and
-- gives the record to each sink. A connection of Hub parses its token with Auth, looks its user
-- up in the database, and is sent the snapshot of State for its organization's devices. The
-- writer of Archive is a sink: it puts rows by partition into the object store. The worker of
-- Exportjob claims jobs of Repository, merges the objects that Archive lists for a job, puts the
-- result into the object store and marks the job.
--
-- How the model corresponds to the code. A Go method of a component is a function of the same
-- name in antt's spelling that takes the component's state and returns it with the result. Errors
-- are values: the constructors of Repository.Error, of Telemetry.Outcome and of Api.Reply. The
-- database is a record of tables; each statement is one step on it. An environment decides which
-- statements fail, the identifiers drawn and the clock, so a theorem over all environments covers
-- every pattern of failures. A statement that fails changes no table. The uuid package, the
-- parsing of email addresses, numbers and times, JSON decoding and the verification of tokens are
-- parameters. The hub is a list of connections, each with the place where its read loop stands, and
-- the calls of Broadcast that are under way. An event is one step: a read loop goes on by one
-- lookup, one write or one section under the mutex; Broadcast takes the mutex for reading, and then
-- offers its reading to one connection at a time; the network, the database and the store change.
-- The steps come in any order, but that a connection is registered or removed only while no
-- Broadcast holds the mutex. set_filter and send_snapshot are the methods with nothing between their
-- steps. The object store that the archive and the worker use is a record of operations on a state
-- of any type, which may fail as the state decides. MergeCSV gives what it has written to its
-- destination when it returns: all of the CSV after its Flush, and otherwise as much as csv.Writer
-- has written early, which is a parameter. For the worker, Put answers whether it has read its pipe
-- to the end, since the worker waits for ever where it has not. The writer is modelled twice: its
-- calls one after another, and the parts of its methods between which it does not hold the mutex
-- as steps in any order. The calls of the operating system by the store in a directory are a
-- record of operations that may fail; a path is a file with a text, a directory, or missing, and no
-- path goes through a link.
--
-- Bounds. Identifiers, instants and the bits of floats are native numbers; the program only
-- compares them, but for the test on NaN and infinities, which reads the bits of the exponent,
-- and the range of an export, which is a difference of instants and stops at the largest Duration
-- as Go's does. The loop of ProcessQueued runs on fuel, and more fuel than there are queued jobs
-- is enough; where Put leaves its pipe unread the outcome is `blocked`. Every other function is
-- structural recursion.
--
-- Not modelled: the object store on S3 and the choice of a store, the timers that flush the
-- archive and start the worker, cancelled contexts, the route table of the HTTP API, rendering of
-- replies as JSON, deadlines of connections, logging, the migration tool, the MQTT and S3
-- clients, command-line tools, and the web interface. Two requests that interleave their
-- statements are not modelled: a handler runs to its end before the next.
pub mod Base
pub mod Text
pub mod Dict
pub mod Storage
pub mod Archive
pub mod Exportjob
pub mod Config
pub mod Models
pub mod State
pub mod Topic
pub mod Repository
pub mod Auth
pub mod Api
pub mod Hub
pub mod Telemetry
mod Tests
