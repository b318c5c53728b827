-- ===== src/Lib.antt =====
-- Zegel: references about a trading record that are sealed, published under a name and verified.
--
-- The program's parts. `packages/seal` seals claim sets on Swarm and grants readers access;
-- `gateway` is the CCIP-Read gateway that stores the public envelope of a reference and signs the
-- answers to lookups; `cli` assesses a reference and gives a verdict; `solana` verifies one that
-- is anchored there; `packages/sdk` holds the encoding that every commitment goes through,
-- resolves a name to its envelope and checks it against the anchor that `contracts` keeps on
-- chain; `app` prints a reference as a passport page with a machine-readable zone;
-- `packages/evidence` collects the evidence a reference rests on, derives its claims and checks a
-- bundle by deriving them again. The gateway, the sdk, the command line and the page read the same
-- envelope.
--
-- The files.
--   Common: shared names. Text is a text as a list of UTF-16 code units, JsMap a JavaScript `Map`,
--   Result a call that may throw, Int the integers, Lists lists over the native numbers.
--   Gateway/Failure (gateway/src/errors.ts), Gateway/Envelope (gateway/src/envelope.ts),
--   Gateway/Store (gateway/src/store/types.ts, memory.ts), Gateway/Publish (gateway/src/admin.ts),
--   Gateway/Dns (gateway/src/dns.ts), Gateway/Query (gateway/src/ccip.ts), Gateway/Lookup
--   (gateway/src/app.ts) and Gateway/Feed (gateway/src/store/swarm-feed.ts). A handler is a
--   function from the store's state to a result and the next state; `EnvelopeStore` is the
--   interface that Publish and Lookup are parametrised by, `IsNonceSafe` its laws, which the
--   memory store fulfils.
--   Gateway/Publish/Interleaved splits a publish at the point where other calls can run in
--   between; the other results on publishes take each call as one step.
--   Gateway/FileStore (gateway/src/store/file.ts): the store in a file. Its maps are those of the
--   memory store; FileStore/Refinement runs both side by side, FileStore/Interrupted is the disk
--   while a flush runs, FileStore/Writes the chain of the flushes of puts that overlap.
--   Gateway/Owner (gateway/src/owner.ts): the two lookups of a name's owner.
--   Gateway/Platform and Gateway/Query.Abi hold what is taken from viem, `Date` and `JSON`.
--   Seal/Queue (packages/seal/src/queue.ts): the queue of grantee patches as a step relation, one
--   step for each point at which the promise chain yields. Seal/Pubkey
--   (packages/seal/src/pubkey.ts) normalises grantee keys; the test of the curve is a parameter.
--   Seal/Postage (packages/seal/src/postage.ts) prices a batch, waits until it is usable and
--   chooses one.
--   Seal/Refs (packages/seal/src/refs.ts), Seal/Receipt (packages/seal/src/receipt.ts),
--   Seal/Envelope (packages/seal/src/envelope.ts) and Seal/Keeper (packages/seal/src/keeper.ts):
--   the coordinates of a sealed object, its receipt, its content and the log of receipts.
--   Seal/Client and its Access (packages/seal/src/client.ts): the client as functions to a result
--   and the list of the calls made.
--   Sdk/Canonical (packages/sdk/src/canonical.ts), Sdk/Anchor (packages/sdk/src/verify.ts) and
--   Sdk/Resolve (packages/sdk/src/resolve.ts); Sdk/Resolve/Served is about what the gateway
--   accepts.
--   Contracts/Anchor (contracts/src/ZegelAnchor.sol): the contract as functions on its mapping.
--   Cli/Status (cli/src/core/status.ts): `assessReference` as a function to a verdict, its
--   reasons, the list of checks and the exit code.
--   App/Mrz (app/src/lib/mrz.ts): the zone's printer, its two readers and the check digit.
--   App/Ndjson (app/src/lib/ndjson.ts): the events that are streamed to a page, and their reader.
--   Solana (solana/src/hex.ts, schema.ts, verify.ts): Hex compares identifiers and has their
--   bytes, Schema holds the schema and codes its names and the attestation's data, Revocation
--   searches the history for a close, Verify gives the verdict on the two accounts that were
--   fetched.
--   Evidence (packages/evidence/src): Client and RateLimit (client.ts, ratelimit.ts) are one call
--   as a loop over its attempts, with the replies and the clock as a `World`; Workers (collect.ts)
--   is the sharing of a plan among workers, as a sequence of turns; Sources, Cycles and Metrics
--   (derive.ts) read the sources, Specs and Claims hold the rules and apply them, Derivation gives
--   their digest; Build (collect.ts) makes the bundle, Verify and Claimset (verify.ts,
--   claimset.ts) check it and give its public part; Chains (chains.ts) normalises the names of
--   chains. Bundle has the types of packages/sdk/src/types.ts. A double is its bit pattern, and
--   `Arithmetic` is what the language computes with it.
--   The files named Tests hold runs at concrete values.
--
-- Bounds and fuel. The loop of `decodeDnsName` runs on fuel, the number of bytes plus one; each
-- round consumes a byte, so it is enough, and the characterisation of the decoder includes that. The
-- loop of `decodeFieldNames` runs on the number of bytes, of which a round takes four. The loop of
-- `waitForUsableBatch` runs on the timeout divided by the pause, and two, which a theorem shows to
-- be enough where the pause is not 0 and the clock advances by it. Prices and durations are whole
-- numbers. The loop of the evidence client runs on the attempts of its policy. Numbers are
-- unbounded: nonces and validity ends are `bigint` in the source, and times are seconds or
-- milliseconds that a double holds exactly. The indices of the sources of a bundle are whole
-- numbers. The reads of a gateway store answer; a read that rejects is not modelled.
--
-- Not modelled: HTTP, CORS and the reading of request bodies; the configuration, the wiring and the
-- health reports of the gateway; the probing of Swarm endpoints; the streams and the GraphQL queries
-- of the evidence package, and its choice of assets to look up; the commands and the rendering of
-- the command line; the transactions on Solana; the pages of the application; the resolver and the
-- issuer registry on chain. Cryptography, ABI coding, UTF-8, JSON and dates belong to the platform
-- and to packages, and are parameters.
pub mod Common
pub mod Gateway
pub mod Seal
pub mod Cli
pub mod App
pub mod Contracts
pub mod Evidence
pub mod Sdk
pub mod Solana
