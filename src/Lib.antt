-- ===== src/Lib.antt =====
-- Steakout: a staking cockpit for the Nimiq chain and an accountability layer for its validators.
--
-- The server (server/src) signs nothing. A user asks for a staking action; the server checks it against
-- the position read from the chain and records a pending intent; the user's wallet sends the
-- transaction; the server confirms the intent when the chain shows a transaction that matches.
-- Beside that it groups the payments of validators into payout runs and compares them with the schedule
-- that a validator declares.
--
-- The parts, each with the file it is translated from:
--
--   Addresses     server/src/addresses.ts: normalizeAddress, isValidNimiqAddress, addressesEqual.
--   Position      server/src/stakingState.ts, the pure part: normalizePositionState, parseStakerBalances.
--   Wallet        server/src/walletBalance.ts: the free balance and the scan of payment contracts.
--   Reading       server/src/stakingState.ts: readStakingPosition with its cache and its snapshots.
--   Rpc, Api      server/src/nimiq-rpc.ts: failures of a call and the API errors they become; Result is
--                 what a handler returns or throws.
--                 Request is one request with its failures and the delay before the next; Client the
--                 endpoints, retries, failover and metrics of requestRpcData.
--   Json          the values of a JSON body.
--   Auth          server/src/auth.ts, auth-wallet.ts, hub-signature.ts: Challenge (/challenge, /verify),
--                 Pairing (/desktop-pair and below), Session (tokens and cookies); Requests puts the
--                 routes together.
--   Staking       the operations and their parameters; Database: the tables of server/src/db.ts.
--   Intents       server/src/stakingIntents.ts: Request (parsing, with server/src/txHashFromSerialized.ts),
--                 Checks, Summary, Rows (the SQL statements), Create, Confirm, Owned (one handler each).
--                 Life and Machine put the handlers together; Journey follows one intent.
--   ResponseCache server/src/responseCache.ts: lookup, storing and eviction.
--   RateLimit     server/src/rate-limit.ts.
--   Payouts       server/src/payoutClassifier.ts: groupPayoutRuns, and persistPayoutRuns in Persist.
--   Indexer       server/src/payoutIndexer.ts: Address is runAddress up to the ingest.
--   Schedule      server/src/payoutClassifier.ts: normalizeSchedule and what it calls.
--   Adherence     server/src/observationScoring.ts: computeScheduleAdherence. Windows are its counts for
--                 decimal hours, Grid those for whole hours.
--   Double        the quotients of JavaScript's numbers that Adherence takes, and when floor is exact.
--   Coverage      server/src/observationScoring.ts: computeRecipientCoverage.
--   StakeAmounts  client/src/staking/amounts.ts: the amounts a user may stake, and their presets.
--   Examples      concrete cases.
--
-- Reading calls Wallet and Position. Create and Confirm read a position past the cache. All of them
-- share the tables: a handler takes a Database and returns one. Where a handler awaits the chain, other
-- requests may be served; what they write is a function argument (`meanwhile`, `fetching`, `reading`)
-- of the handler, and Machine.Runs is the relation of all such interleavings. A position is read in one
-- step.
--
-- Conventions. A text is the list of its UTF-16 code units; upper and lower case are those of ASCII. A
-- number is a floor and whether it is an integer, or minus infinity, or else not finite. An ISO timestamp is its milliseconds,
-- or a malformed text. SQL tables are lists of rows in the order of insertion; an INSERT whose key is
-- taken fails, which the staking routes answer as 503 and those of auth.ts as 500. An error keeps its status, its code and its Retry-After.
-- Texts of messages to the user, log lines, created_at, amountNim and fields that are always null are left out.
-- params_json is its parsed parameters, or none where it does not parse. Transaction.fromAny of
-- @nimiq/core, its check of signatures, base64, HMAC and JSON of Node.js, the network, the clock and
-- random ids are parameters. Calls of the RPC client are made one at a time.
--
-- The batches of the wallet scan run on fuel: one round per address. The digits of a number run on fuel:
-- the number and one. The attempts of an RPC call, and the pages of an indexer's walk, are a count of
-- those left. Rates are compared by their counts, 0.95 as 19/20 and 0.8 as 4/5. A declared interval
-- is a decimal number of hours, and the windows are floors of quotients of doubles, as in the code: Double
-- rounds a quotient of natural numbers to 53 binary digits, with 1074 doublings below one and 971 above
-- `2 ** 53`, which are all that the exponents of a double allow. A quotient past the largest double, for
-- an interval of less than `2 ** -990` hours, is not made Infinity.
--
-- Not modelled: Express routes and middleware, the text of the Set-Cookie header, the parsing of each
-- RPC method's reply, the indexer's cycles, validator sync, alerts, the read APIs and the rest of the
-- client, which are next or are wiring; scripts and probes, which are not part of the server.
pub mod Prelude
pub mod Addresses
pub mod Position
pub mod Api
pub mod Rpc
pub mod Json
pub mod Auth
pub mod Staking
pub mod Database
pub mod Wallet
pub mod Reading
pub mod Intents
pub mod RateLimit
pub mod Payouts
pub mod Adherence
pub mod Double
pub mod Coverage
pub mod Examples
pub mod Schedule
pub mod Indexer
pub mod ResponseCache
pub mod StakeAmounts
