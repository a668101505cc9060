-- ===== src/Lib.antt =====
-- be-distribution-system-armada: a NestJS backend for a fleet that distributes goods. Dispatchers
-- create deliveries of several stops, drivers carry them out, online or from an outbox that they
-- synchronise later, and clients follow over REST and a socket gateway.
--
-- The parts that are modelled, and where:
-- - Deliveries.Model: the rows of prisma/schema.prisma, the DTOs of src/modules/deliveries/dto and
--   src/modules/pod/dto, and the actor. Ids, names and texts are numbers, times are milliseconds.
-- - Deliveries.World: the database and the gateway as one record that is passed on, and the effects
--   of a handler: a result or an exception, with the writes made so far; `transaction` undoes them.
-- - Deliveries.Service and Deliveries.Completion: deliveries.service.ts. `get_delivery_by_id`,
--   `create_delivery`, `assign_delivery`, `accept_delivery`, `start_delivery`, `complete_delivery`,
--   `cancel_delivery` and `complete_delivery_if_eligible` are the methods of these names; the
--   handlers that read and then write are cut in two, `read_…` and `write_…`, for interleavings.
-- - Deliveries.Stops: delivery-stops.service.ts. Deliveries.Pod: src/modules/pod/services/pod.service.ts.
--   Deliveries.Conflicts: delivery-conflicts.service.ts. Deliveries.Controllers: the routes that
--   write, the resolution of conflicts among them, with roles.guard.ts; `serve` runs a list of requests,
--   and `is_overriding` tells those that resolve a conflict with RESOLVED_OVERRIDDEN, which may
--   complete a delivery from any state.
-- - Deliveries.Evolution: the transition diagrams of deliveries and stops, and the proof that the
--   requests follow them, those aside that override a conflict. Deliveries.Eligibility,
--   Deliveries.Races, Deliveries.Access,
--   Deliveries.Pod.Idempotency, Deliveries.Conflicts.Evidence and Deliveries.Conflicts.Resolving:
--   what single handlers do.
-- - Routes: src/modules/routes/utils and the choice of the solver in route-optimizer.service.ts.
--   `solve_exhaustive_permutation` and `solve_nearest_neighbor_2opt` are the two utilities.
-- - Realtime.Connections and Realtime.Rooms: src/modules/realtime/services, the maps of sockets and
--   the rules of the rooms; the other modules of Realtime prove how they behave.
-- - Tracking.Batch: the loop of `processBatch` in src/modules/tracking/services/tracking.service.ts and
--   its broadcast hint; what happens to one point is the argument `ingest`.
-- - Tracking.Points and Tracking.Telemetry: the rest of src/modules/tracking, with `process_telemetry` and
--   the cache of latest locations, whose entries expire after a day; Tracking.Latest,
--   Tracking.Bounds and Tracking.Newest follow runs of requests. Redis is in reach there.
-- - Sessions.Service and Sessions.Login: src/modules/sessions/session.service.ts. `create_driver_session`
--   and `create_session` are the two policies of `createSession`, with the foreign key of the device.
-- - Auth.Login, Auth.Registration, Auth.Tokens, Auth.Sockets, Auth.Users and Auth.Devices:
--   src/modules/auth, the guard of src/modules/realtime/guards, src/modules/users and src/modules/devices. `validate`,
--   `validate_handshake` and `validate_socket` are the three checks of an access token's claims, and
--   `authenticate` adds the expiry that the strategy asks for; Auth.Keys has the reading of a token with
--   jsonwebtoken as a parameter and the choice between the current and the previous secret. What Redis
--   answers about a revocation is their argument `lookup`. Auth.Verdicts, Auth.Grace
--   and Auth.Grants join them with the sessions.
-- - Calls.Service and Calls.Handlers: src/modules/communication/services/call-session.service.ts. A
--   `CallWrite` is the one statement that a handler writes with, and a list of them an interleaving
--   of requests.
-- - Emergencies.Service: src/modules/emergencies; Emergencies.Single and Emergencies.Runs follow runs of
--   triggers and updates.
-- - Keys.Service: src/modules/e2ee-keys; Keys.Queue and Keys.Claims compare the claims of
--   prekeys with a queue.
-- - Routes.Domain, Routes.Selection, Routes.Moves and Routes.Current: the methods of
--   src/modules/routes/services/routes-domain.service.ts; Moves is `reorderStops`.
--   Routes.Sets, Routes.Placing and Routes.Reordering are the lemmas on accepted sets of stops and on
--   the two loops of `reorderStops`.
-- - Chat.Conversations: src/modules/conversations/conversations.service.ts; Chat.Access compares its rule
--   with the rooms.
-- Prelude holds what these share: the library names, tests on numbers, and tables of rows with the
-- operations of the Prisma client. The modules Scenarios run the models on small data.
--
-- The parts meet in the database: stops, proofs of delivery and the resolution of conflicts write the
-- rows of deliveries, the outbox calls the handlers of stops and proofs, and the rooms read the
-- deliveries. A request of `serve` runs to its end before the next; Deliveries.Races interleaves two.
-- Ids that the database or `uuidv4` generates, and the time, are arguments.
--
-- Bounds and fuel: `permutations` has the length of its list as fuel and `construct` the number of
-- waypoints, one for each round that adds a node; `improve` counts the iterations that the
-- code allows. The matrices hold whole meters and seconds, and angles ten-millionths of a degree;
-- the providers and the test of an implied speed, which compute with floating-point numbers, are
-- arguments.
--
-- Not modelled: the messages of a chat, which are the next part to come; files, notifications,
-- health, the fleet's overview and the routing providers, which are input and output; the socket gateway, which is
-- wiring; Argon2, the signatures of tokens and Redis itself, which are third-party code; validation
-- of DTOs by class-validator; the split of a room's name; reading routes other than
-- GET /deliveries/:id and the current route. `serve` has no requests of the routes' controller, which
-- write the mode of a delivery and the order of its stops and are modelled in Routes. The errors of the
-- database that the transaction of a route may meet are one error.
pub mod Prelude
pub mod Deliveries
pub mod Auth
pub mod Calls
pub mod Chat
pub mod Emergencies
pub mod Keys
pub mod Realtime
pub mod Routes
pub mod Sessions
pub mod Tracking
