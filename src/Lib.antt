-- ===== src/Lib.antt =====
-- presign: what the verdict engine, the signing broker and the services round them promise.
--
-- presign judges an unsigned transaction before an agent signs it. The engine simulates it on a fork,
-- runs rules over the state diff and gives a verdict with a tier. The gateway's pipeline and the
-- broker of the MCP server act on the tier: they sign, ask a human on a device, or refuse. The rules
-- read indexed data through the operational layer, which says which deployments can serve them now.
-- The service sells verdicts, with prices and a rate limit, and the journal publishes commitments.
--
-- Files, and the code that each is about:
--   Types, Types/Details: packages/verdict-engine/src/types.ts.
--   Engine: packages/verdict-engine/src/engine.ts. `evaluate` is VerdictEngine.evaluate with
--     #refuseForeignChain (`refusal`) and #evaluate (`judge`); `tier_of` is #tier. Engine/Tier has the
--     laws of the tier, Engine/Evaluate those of a whole verdict.
--   Effects, Mappings: packages/verdict-engine/src/simulation/effects.ts and mappings.ts.
--   LruMap: packages/verdict-engine/src/util/lru-map.ts; JsMap is JavaScript's Map and Set.
--   Broker: packages/verdict-mcp/src/broker.ts. `sign_through_verdict` is signThroughVerdict; each
--     stage after an `await` is a definition, and `Run` carries the session's `ethSpentWei` and the
--     calls made so far.
--   Escalation, Device: packages/ledger/src/escalation.ts and confirmation.ts. A device action is the
--     list of the events before `subscribe` returns and the list of those after it; a failure of the
--     stream and the timer are events too. Device/Waiting reduces the flags of a wait to its first end.
--   Pipeline: packages/gateway/src/pipeline.ts.
--   Capability, Conformance: packages/operational-layer/src/types.ts, capability/index.ts and
--     probes/conformance.ts.
--   Secrets: packages/secrets/src/resolver.ts and types.ts.
--   Pricing, RateLimit: packages/service/src/pricing.ts and rate-limit.ts.
--   Journal: packages/hedera/src/journal.ts.
--   Approvals, MutableLogic, Counterparty: the rules R1, R2 and R4 of packages/verdict-engine/src/rules:
--     r1-unlimited-approval.ts, r2-mutable-logic.ts and r4-unidentified-counterparty.ts. The parent
--     has the data and the findings, Evaluate what is awaited, and the other children what a rule
--     does to a whole verdict through Engine/Rules. Exposure is exposure.ts beside them, and Duration
--     the texts of durations and dates.
--   Incidents, Origin, Context: packages/verdict-engine/src/incidents/incident-registry.ts,
--     chain/contract-origin.ts and protocol/operational-context.ts, which the rules read through.
--   Gateway, Gateway/Liveness, Funding: packages/operational-layer/src/gateway/client.ts,
--     probes/liveness.ts and gateway/funding.ts. Funding/Sending is the paying fetch over the queue of
--     its requests, and Funding/Choices is chooseFunding.
--   Upgrades: packages/substreams/src/proxy-upgrades.ts. `run` is the unbounded run, over connections
--     that are given by their blocks and their ends.
--   Prelude: shared tests, lists, equality and text. Each Tests file holds concrete runs.
--
-- Conventions. A `bigint` and a whole `number` is a natural number; a difference that JavaScript
-- clamps at 0 is subtraction on natural numbers. A moment is in milliseconds, a lag in milliseconds, an
-- age in tenths of a second. Hex and other text is ASCII, and `toLowerCase` maps its capital letters.
-- A promise settles with a value or rejects with a message (`Settled`); what is awaited and not
-- written in this repository (the simulator, a device, a key, a fetch, viem, SHA-256) is an argument of the
-- definitions that call it. Concurrent calls whose results are gathered by Promise.all stand in the
-- order of the results. A message in prose is kept where code reads it, and is otherwise the values
-- it is built from. The findings of the rules keep their title and detail; their `evidence`, which no
-- code of these packages reads, is left empty. Array.prototype.sort is stable.
--
-- Bounds. `decimal` recurses on the number itself as fuel, which has at least as many units as the
-- number has digits. The
-- bisection of Origin recurses on the accessibility of its width, and the hours of `humanDuration`
-- are exact on the 53-bit significand of a double. Every other loop is structural: over a list, a text, or the rounds of a
-- `for` loop. The bounds of the source (33 mapping positions, 512 candidates, 8 priced deployments, the
-- window of a minute) are constants here.
--
-- Not modelled: rule R3, the simulator and its fork, the registry and RPC clients, the device
-- transport and key ring, the Hedera topic, the HTTP service, the payer, the MCP servers
-- and the scripts. They are I/O and glue, or wait for a later extension.
pub mod Prelude
pub mod JsMap
pub mod LruMap
pub mod Types
pub mod Upgrades
pub mod Effects
pub mod Engine
pub mod Broker
pub mod Escalation
pub mod Pipeline
pub mod Capability
pub mod Secrets
pub mod Pricing
pub mod RateLimit
pub mod Device
pub mod Mappings
pub mod Counterparty
pub mod Duration
pub mod Context
pub mod Gateway
pub mod Funding
pub mod MutableLogic
pub mod Exposure
pub mod Approvals
pub mod Incidents
pub mod Origin
pub mod Journal
pub mod Conformance
