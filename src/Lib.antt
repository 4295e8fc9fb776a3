-- ===== src/Lib.antt =====
-- bnb-agent-marketplace: a verification of the server-side core of the marketplace.
--
-- The program sells the work of agents to wallets. A buyer signs in with a wallet (Auth), asks for
-- a hire of an agent (Hires), for which the agent's own x402 offer is probed (Offer) and a
-- challenge is built (Payment); the buyer signs a token transfer and sends it in a header, which
-- is decoded, verified against the hire and broadcast by the facilitator (Payment). A second kind
-- of hire goes through an on-chain escrow (Hires/Escrow, Hires/Jobs). A wallet keeps a list of
-- favorite agents (Favorites). Agents carry scores (Score), a category (Categories) and penalties
-- for listed wallets (Compliance). Two workers index the token's transfers and the registry's
-- events from the chain (Indexer), one of them through a client of two node providers (Rpc);
-- further workers mirror the agents of the upstream registry (Sync) and probe them (Score/Worker);
-- the wallet score reads that index.
--
-- Parts and files:
--   Base: texts as lists of code points, integers, Python's int() on texts, lists, tests on
--     numbers.
--   Errors, Exec: app/errors.py as a data type of errors, results, and code that acts on a state
--     and may raise.
--   Json: what json.loads gives.
--   Config: app/config.py, the rail map and the settings that are read. Config/Rails: its
--     theorems.
--   Payment/Types, Validators, Challenge, Envelope, Verify, Broadcast: app/services/payment.py,
--     one module for each of its sections; a Python function keeps its name, without a leading
--     underscore.
--   Offer, Offer/Guard: app/services/x402_client.py, the probe and its guard against requests to
--     private networks.
--   Hires/Types: app/db/models/hired_agent.py and the columns of app/db/models/agent.py that are
--     read. Hires/Create, Hires/Pay: app/routers/hires.py. Hires/Escrow:
--     app/routers/escrow_hires.py with the constraints of app/schemas/escrow.py. Hires/Jobs: the
--     calldata builders of app/services/altana_jobs.py. Hires/Steps: the requests of both routers
--     as steps of one store. Hires/Ledger, Closed: theorems on sequences of them, over the lemmas
--     of Hires/Rows and Hires/Table.
--   Auth: app/services/auth.py and the sign-in of app/routers/auth.py. Auth/Table: a table with a
--     text key.
--   Score, Score/Track: app/services/agent_score.py. Score/Total:
--     app/services/agent_total_score.py.
--   Score/Wallet: app/services/wallet_activity.py, over the index.
--   Indexer/Address, Scan, Timestamps, Store, Chunks, Cycles: app/services/onchain_indexer.py with
--     app/db/models/onchain_index.py, from the log requests up to the workers' cycles.
--     Indexer/Rounds and Covers: the scan loop. Indexer/Again, Keyed, Repeats, Keys: the inserts.
--     Indexer/Agree: the two ways to scan and store. Indexer/Windows, Times, Canonical: the
--     ranges, the times, the addresses.
--   Rpc: app/services/rpc_client.py. Rpc/Failover: its theorems.
--   Categories, Categories/Hints: app/services/categories.py. Categories/Reclassify:
--     app/services/reclassify.py. Categories/Shadowed, Settled: their theorems.
--   Compliance: app/services/compliance_refresh.py. Compliance/Mirror:
--     app/services/flagged_sync.py. Compliance/Keyed, Refreshed, Mirrored: their theorems.
--   Sync, Sync/Columns, Rows: app/services/sync_worker.py. Sync/Owned, Newest, Failures: its
--     theorems.
--   Favorites: app/routers/favorites.py and app/db/models/favorite.py. Favorites/Kept: its
--     theorems.
--   Score/Worker: app/services/probe_worker.py. Score/Starved: its theorem.
--   Examples: a small world in which the theorems are applied.
--
-- Conventions: the database is a record (Store, AuthStore) that each handler takes and returns; a
-- request that raises before its commit returns the store it was given. Where the source raises,
-- the model returns the error; what PostgreSQL refuses at a flush or commit since a column of the
-- hires cannot hold it is library_error. Times are natural numbers of microseconds, as are the
-- ages and windows of the scores; the seconds of a signature's period are seconds. Long handlers
-- are cut into the checks and the writes (approve and finish of pay_hire, quote_hire of
-- create_hire, submittable of submit_escrow_hire, usable_nonce of verify_signature), composed as
-- in the source.
--
-- Parameters: what is not in the repository is an argument. Externals holds Unicode's decimal
-- digits, the decoding of a header (base64, UTF-8, JSON) and eth-account; Net and Web hold URL
-- parsing, name resolution and HTTP; Chain holds the node behind the RPC URL, whose state each
-- request may change; Abi holds eth-abi and keccak; Wallet holds the recovery of a personal
-- signature, the cookie serializer and the keyed hash; LogsCall, TsGetter and Randint are the
-- node's logs, its block times and random.randint, each of which may change the world; nearest is
-- the rounding of a quotient of doubles; post is a request to a node provider; get_agent and
-- iter_agents are the client of the upstream registry, probe_termix_card the probe of an agent's
-- card, and get a request for a list of addresses.
--
-- Fuel: decimal_fuel prints a number on its successor as fuel, which is enough since each step
-- divides by ten; wait_for_receipt polls as often as the source does (poll_attempts); the loops
-- over blocks have one round for each block of their range (scan_fuel), which is enough as each
-- round goes on by at least one.
--
-- Not modelled: HTTP and HTMX responses, HTML pages, SQL listings, the endless loops of the
-- workers, the mirror of the agents' reviews, the clients of third-party services, migrations and
-- seeds. Doubles are replaced by exact rationals in the scores. str.lower is modelled on ASCII.
-- Keys that a failed request draws from the sequence of hires count as unused. The price in
-- dollars of an offer is its amount in wei over 10^18 and is kept as the amount. Requests act one
-- after another: two requests that interleave on one hire are not modelled.
pub mod Auth
pub mod Base
pub mod Categories
pub mod Compliance
pub mod Config
pub mod Errors
pub mod Examples
pub mod Exec
pub mod Favorites
pub mod Hires
pub mod Indexer
pub mod Json
pub mod Offer
pub mod Payment
pub mod Rpc
pub mod Score
pub mod Sync
