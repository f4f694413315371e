-- ===== src/Lib.antt =====
-- dsh-fleet: the control plane, which lets a browser drive machines that dial out to it.
--
-- The program's parts and the files that model them, by their paths from the repository's root:
-- - pkg/envelope/envelope.go, the frames of the uplink: Envelope, Envelope/Frames (constants and
--   structs, field for field), Envelope/Payload (Payload, Bytes, NewPayload). Base64 and Utf8 are what
--   Go's packages of these names do there. A message is what Unmarshal makes of its text, or the way
--   in which it fails; JSON text itself is not modelled.
-- - internal/uplink/registry.go: Registry, with Registry/Laws, Registry/Online (its sort) and
--   Registry/History. The mutex makes a call atomic, so concurrent callers are a list of calls.
-- - internal/uplink/conn.go: Conn. Conn/Chan has Go's buffered channels, which take a value, block or
--   panic; Conn/State the structs and the heap of *pending and *Bridge objects, by address;
--   Conn/Close has closeChunks, settle, dropBridge, Bridge.Close and shutdown; Conn/Request has Do,
--   pump and the close of a body; Conn/Socket has OpenWS and Bridge.Send; Conn/Dispatch the read loop;
--   Conn/Heartbeat one tick. A function is cut where it releases the lock or waits in a select, and
--   the read loop between the look-up of a frame and its send.
--   Conn/Steps puts the pieces together as a step relation, in which any goroutine may be next, and
--   Conn/Stream follows one response body. Conn/Invariant, Conn/Correlation, Conn/Delivery,
--   Conn/Stalls and Conn/Liveness hold proofs.
-- - internal/uplink/handler.go: Uplink, with Uplink/Laws. The stores are the handler's interfaces, over
--   a state of any type; what the rest of the program does while a connection is served is an argument.
-- - internal/proxy/http.go: Proxy/Gate (Access and the pinned methods), Proxy/Splice, and Proxy
--   (classify, ServeHTTP, bridge as far as the upgrade, fail, record); Proxy/Laws holds proofs. Strings
--   and Utf8/Runes are what Go's strings, bytes and unicode/utf8 do there. The connection to a machine
--   is a Link, the answers of conn.Do and conn.OpenWS; a reply is known whole. WriteHeader does what
--   net/http documents: it panics outside 100 to 999 and an informational status is not the last.
--   unicode.ToLower is an argument, for its table.
-- - internal/auth/secret.go: Secret, with Secret/Scan (Split and Sscanf) and Secret/Laws. IDKey of
--   golang.org/x/crypto/argon2 is an argument.
-- - internal/nodes/store.go: Nodes, with Nodes/Laws (histories of calls) and Nodes/Login. The table is a
--   dictionary by id; a Boolean argument says whether the database takes a statement.
-- - internal/users/store.go and tokens.go: Users, Users/Changes and Users/Tokens; Users/Access and
--   Users/Sessions hold proofs. Tables are lists of rows; the database's lower() and SHA-256 are
--   arguments.
-- - internal/console: Console (the guards of auth.go, isNavigation, sanitizeNext), with Console/Laws;
--   Console/Login the rest of auth.go; Console/Reply its paths and the redirects; Console/People,
--   Console/Account and Console/Overlay the files of these names; Console/Machines nodes.go, state.go
--   and offline.go. A handler is a function from the form, the account of the request and the store to
--   an answer and the store; what is left to a template is the data that it is given. url.QueryEscape
--   is in Url.
-- - internal/audit: Audit (audit.go), with Audit/Queue and Audit/Stop, is a step relation of requests,
--   of the goroutine drain and of the stop function; Audit/Trail is query.go and the page of
--   internal/console/audit.go.
-- - internal/store/migrate.go: Migrations, with Migrations/Step (one script), Migrations/Progress,
--   Migrations/Laws and Migrations/Order. A script may commit itself, as those of deploy/migrations
--   do.
-- - internal/config/config.go: Config, with Config/Laws.
-- - internal/certs/selfsigned.go: Certs, with Certs/Covers: names, addresses, files and failures.
-- - cmd/dshf/main.go: Fleet (the commands and small helpers), Fleet/Start (serve up to the listener,
--   over Config, Migrations, Users and Proxy/Gate), Fleet/Routes (the routes of the server
--   and their guards), Fleet/Enrol (the uplink handler over the two stores), Fleet/Upkeep (the
--   hourly loops) and Fleet/Commands (what the operator's commands do to the stores).
-- Users/Rows and Nodes/Rows have the queries that list rows, and Nodes/Rows the loop of PruneTelemetry,
-- which reads the clock in each batch.
--
-- Base has what they share: tests on numbers, strings as bytes, dictionaries, decimal numbers, results
-- and errors as the sentinels that errors.Is finds. Witnesses runs the theorems at concrete inputs.
--
-- The browser asks Proxy, which looks a connection up in Registry and calls Do or OpenWS of Conn; the
-- read loop of Conn answers through channels. A machine enters by Uplink, which asks Nodes and Users,
-- which ask Secret, and puts its connection into Registry. Fleet ties these together: each path of the
-- server to a handler of Console or Proxy behind a guard, whose sessions are those of Users.
--
-- Integers: a uint64 counter wraps (% 2 ^ 64), and theorems on it say where they need it not to; a Go
-- int that a peer sends is ℤ. Times are natural numbers, of milliseconds in Conn and seconds in Users
-- and Console; a Duration of Config is an int64 of nanoseconds, as ℤ, which wraps where it is computed.
-- Fuel: Decimal has n rounds for the digits of n, which is enough since each divides by ten; the loop of
-- itoa has the 20 bytes of its buffer, and a theorem that an int needs no more; PruneTelemetry has a
-- round for each full batch of the table, and a theorem that it ends. All other recursion is structural.
--
-- Not modelled: the TLS and WebSocket libraries, timeouts of single writes, logging, the relay loops of
-- an upgraded bridge, the text of JSON, templates and assets, keys and certificates as x509 makes them,
-- rows that come in during a call of PruneTelemetry, the flag package, listeners and signals of
-- cmd/dshf, and the plugin of the machines (dsh): they are input and output, printing, or the work of
-- libraries. A statement of Nodes and Users that returns an error is one that did nothing; in Audit and
-- Migrations one may have been carried out although its caller is told of an error.
pub mod Base
pub mod Strings
pub mod Base64
pub mod Utf8
pub mod Envelope
pub mod Registry
pub mod Conn
pub mod Uplink
pub mod Audit
pub mod Certs
pub mod Config
pub mod Console
pub mod Fleet
pub mod Migrations
pub mod Nodes
pub mod Proxy
pub mod Secret
pub mod Url
pub mod Users
pub mod Witnesses
