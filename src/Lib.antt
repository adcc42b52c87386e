-- ===== src/Lib.antt =====
-- Verification of the backend of Capere AI, an AI growth platform for accounting firms that sits
-- on top of GoHighLevel. The backend is a NestJS application over PostgreSQL: services keep their
-- state in tables, requests pass guards, model calls pass a budget and a ledger, and background
-- workers deliver events and run jobs. Paths are from the repository's root.
--
-- How the code is read. A table is the list of its rows and a query is a function over it
-- (Base/Table: where, update, order by, limit). A transaction is one function from table to table.
-- Rows locked by another transaction are a predicate that SKIP LOCKED leaves out. Ids are UUIDs and
-- claim tokens, read as numbers; the database or a random source supplies them as arguments. Times
-- are milliseconds since the epoch and are arguments. A thrown error is a value. Message texts that
-- nothing reads are left out. Services that a part calls and that are not modelled (the model
-- provider, tools, SHA-256) are parameters, and so is another part where the interface is narrow (the
-- insights engine of the relay and of the jobs).
--
-- The parts and their files:
--   Auth         backend/src/auth: membership.service.ts (Auth), api-key.service.ts (Auth/ApiKeys) and
--                the guards of a request in the order of app.module.ts (Auth/Guards). The checks of a
--                bearer token, the hash and the random digits are parameters. Auth/ApiKeys/Issued and
--                Auth/Isolation prove what a key and an admitted request may do. Whether a
--                feature flag is on is a parameter, and the rate limit is not modelled.
--   Llm          backend/src/llm: usage/usage.service.ts (Llm/Usage, the ledger), budgets/
--                budget.service.ts (Llm/Period, the calendar, and Llm/Budget, with Gate and Alerts)
--                and router/model-router.service.ts (Llm/Router, with Fallback, Faults and Stream;
--                Llm/Errors has the errors of llm-provider.port.ts and shared/http/app-exception.ts).
--                The router reads and writes the ledger and the budgets of one store; an alert is
--                written with an event of the outbox. The provider and the errors of the database
--                are parameters. The search for a month takes fuel, one more than the days to pass;
--                each month passes 28 days at least. The quotient of a budget is exact.
--   Outbox       backend/src/shared/events/outbox.service.ts: events are written with the change that
--                causes them, claimed in batches by relays, and consumed, retried or dead-lettered.
--                Outbox/Ownership, Exclusive, Invariant, Attempts and Batch prove it; Outbox/Bus is
--                in-process-bus.ts, Outbox/Relay one pass of backend/src/jobs/outbox-relay.worker.ts.
--                The relay's start, stop and timer are process control and are not modelled.
--   Jobs         backend/src/jobs/scheduler.service.ts (Jobs/Scheduler: leases, retries, due jobs and
--                one pass, with Claims, Exclusive, Due, Runs, Steps and Batch) and job-monitoring.service.ts
--                (Jobs/Monitoring). What a job does is a parameter, and the polling loop is not
--                modelled.
--   Rag          backend/src/rag/chunking.ts: Rag/Text has the string functions that it uses, over
--                UTF-16 code units, and Rag/Chunking the loop. The loop takes fuel, one more than the
--                length of the text; each round moves the start forward, so that it is enough. The
--                HTML stripping of normalizeSourceText is not modelled.
--                backend/src/rag/rag.service.ts: Rag/Documents has uploads, lists and lookups (Files the
--                checks of a file and its path), Rag/Ingestion the work of a claimed job over the tables
--                of Rag/Rows. Rag/Worker is one pass of rag-ingestion.worker.ts. Rag/Access says how they
--                reach the database: between two accesses other connections may change the tables in any
--                way, and an access may fail. Worker/Steps has the transition system, with the proofs in
--                Rules, Runs, Passes, Invariant and Abandoned; Ingestion/Quiet, Indexed and Outcome have
--                what an undisturbed job does, Repeated a source that repeats a passage. The storage of
--                sources, the embedding provider and the vector store are parameters.
--   Recommendations  backend/src/recommendations/recommendation.service.ts: Recommendations has the
--                tables and operations, Transitions and Generation the proofs. The insights are rows
--                that another part writes; a generated recommendation is written with its history
--                and an event of the outbox.
--   Insights     backend/src/insights/insights.engine.ts: the insights of generators and their events
--                (Insights, with Rows). Again proves what a repeated run does, Growth what a run adds.
--                The generators and the answer of the feature flag are parameters.
--   Organizations  backend/src/organizations/organization.service.ts: users, organizations and members
--                with the keys of their tables (Organizations, with Rows). Owners and Owners/Steps
--                prove that owners are kept, Creation what a creation leaves. The lower case of an
--                address is a parameter.
--   FeatureFlags backend/src/feature-flags: the catalog, the overrides and the cache of a process;
--                Toggles proves what a toggle means for a process and for the others.
--   Tools        backend/src/intelligence/tools: the registry (Tools, with Schema for the conversion of
--                schemas, and Invocation for a call). The bodies of tools, the schema library and the
--                parser of JSON are parameters; Invocation/Permission and Offers prove what may run
--                and what is offered.
--   Reasoning    backend/src/intelligence/execution/tool-execution.service.ts: the loop of model and tool
--                calls. It takes the rounds that the request allows, and one call more. Transcript,
--                Reach, Completion and Offered prove what it returns, does and needs. The router is a
--                parameter.
--   Memory       backend/src/intelligence/memory/memory.service.ts: conversations, facts and the snapshot
--                (Memory, with Sequence, Recent and Facts). The vector store is a parameter.
--   Chat         backend/src/intelligence: generate-chat-response.use-case.ts (Chat, Chat/Turns and
--                Chat/Response), capability-router.service.ts (Chat/Policy) and
--                review/response-review.service.ts (Chat/Review). A call is a flow over the tables of
--                Memory and the world of the tools: it runs the loop of Reasoning, reviews the answer
--                and keeps the turns. Scope, Approval and Transcript prove what it keeps and presents.
--                The wording (patterns, formatted answers), the prompts and the context of the
--                organization are parameters.
--
-- Not modelled: the adapters of outside services (GoHighLevel, Google, DataForSEO, GitHub, OpenRouter,
-- vector stores, storage), the resolution of prompts, the generators of insights, reporting,
-- automation, configuration and start-up, and the frontend.
pub mod Base
pub mod Auth
pub mod Chat
pub mod FeatureFlags
pub mod Insights
pub mod Jobs
pub mod Llm
pub mod Memory
pub mod Organizations
pub mod Outbox
pub mod Rag
pub mod Reasoning
pub mod Recommendations
pub mod Tools
