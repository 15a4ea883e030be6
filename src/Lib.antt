-- ===== src/Lib.antt =====
-- Customers Manager Hub, the API service under apps/api/src/customers_manager_hub: tenants talk
-- to their customers over channels, an AI gateway answers, policies and human operators take
-- over, and wallets are charged for AI calls.
--
-- How the parts interact. A message of a customer arrives as an inbound event. The policy engine
-- decides whether the agent may answer; where it may not, or where a keyword or a tool asks for
-- it, the handoff runtime pauses the agent until an operator claims and closes the conversation.
-- An agent that answers takes a lease of its run, offers the model the tools that it may call,
-- and runs those that need no approval; it calls the AI gateway, which tries the routes of a
-- task's profile, asks the billing service before each call and records a trace and a charge
-- after it.
--
-- The files.
--
-- - Prelude and its children: names of the libraries, Boolean tests on numbers, lists over native
--   numbers, signed integers, results, steps of a state that may raise, text, a stable sort, and
--   tables as lists of rows. Json: the JSON values that a row holds.
--
-- - Decimal and Decimal/Exact: Python's `decimal` at its default context, 28 significant digits,
--   half to even.
--
-- - Models, AiModels, AgentModels, HandoffModels, PolicyModels: the rows and enumerations of
--   models.py, ai_models.py, platform_ai_models.py, agent_models.py, channel_models.py,
--   handoff_models.py, policy_models.py and tool_models.py, as far as the other modules read or
--   write them.
--
-- - Billing: billing_runtime.py and the credit of platform_billing.py. `resolve_price`,
--   `calculate_charge_rial`, `ensure_can_execute`, `record_charge` and `credit_business_wallet`
--   are the functions of these names. Charge, Prices, Ledger, Once, Credit and Funds hold the
--   theorems.
--
-- - AiGateway: ai_gateway.py. State has `load_profile` (`_load_profile`) and the environment;
--   Execute has `execute` (`_execute`) as `try_routes`, `run_route`, `try_route` and `try_once`,
--   and `record_trace` (`_record_trace`); Registry is `AIProviderRegistry`; Requests are the
--   three public calls.
--
-- - Handoff: handoff_runtime.py, every function under its name. Request and Escalation ask for a
--   human, Claim is what an operator does; WellFormed, Steps, Kept and Reachable hold the
--   invariant of the unique index, Ownership and Pausing what each operation leaves.
--
-- - Policy: policy_runtime.py. Hours and Normalize read a policy's row, Engine loads the policy
--   in force, Decide and Tools are the decisions of `PolicyEngine`.
--
-- - Conversations: `create_message` of conversations.py, with the unique constraint on a tenant's
--   idempotency keys.
--
-- - RequestHardening: production_hardening.py, every function under its name. RequestId, Client
--   and RateLimit are the parts of the middleware, Middleware its `dispatch`; Window, Ids and
--   Blocked hold theorems.
--
-- - AgentRuntime: agent_runtime.py. Resolve has `resolve_or_create_run`
--   (`_resolve_or_create_run`) and `load_run_snapshot`; Lease the writes of agent_runtime.py to a
--   run (`try_claim` and `claim_refused` are the two halves of `_claim_run`); Context and
--   Decision what a model is given and what it answers; Environment the state of a worker, the
--   monad of its steps and `with_lease_renewal`, which stands for the three functions of that
--   suffix; Rounds the loop over tools; Answer the making of a text; Process
--   `process_agent_event`. Their children hold the theorems. ChannelModels and ToolModels are the
--   rows of channel_models.py and tool_models.py.
--
-- - ToolRuntime: tool_runtime.py. Text, Schema, Url and Configuration check names, schemas,
--   addresses and configurations; Http is the HTTP client, and Adapters has
--   `RestToolAdapter.execute` and `GoogleSheetsToolAdapter.execute` (`rest_execute`,
--   `sheets_execute`) and the registry; Access the queries for the tools of an agent; Executions
--   the writes to a row of an execution; Calls and Execute are `execute_agent_tool`. Verdicts,
--   Decided, Approved, Attempts, Bounded, Public, Plain, Safe and Listed hold the theorems.
--
-- - ChannelQueue: channel_queue.py, the queue of inbound events over Redis, whose commands are an
--   interface with laws (Attempts). Accounts says what becomes of the entries of a batch, Batches
--   holds the theorem.
--
-- Conventions. A UUID is a number, a timestamp the number of microseconds since a fixed date. A
-- table is the list of its rows, in the order of insertion, and `update_row` writes a loaded row
-- back under its primary key. A function that raises returns a `Result`; a session that is rolled
-- back leaves the tables as they were. A query for one row is `find`; where the source orders a
-- query, the model sorts. Columns that only the database server fills, such as created_at, are
-- left out where nothing reads them.
--
-- Parameters. Providers, the clock, uuid4, sleeping, `str.strip`, `str.casefold`, the time zone
-- database, Python's tables of digits, the commands of Redis, and what the middleware takes from
-- Python's ipaddress and from Starlette are arguments of the definitions that use them. So is
-- what other transactions commit between the reads and the writes of an attempt. An agent's
-- worker takes all that it calls from an `Environment`: the gateway, the tools, the memory, the
-- knowledge and the dispatch. The tool runtime takes Python's urllib, ipaddress, idna and json,
-- jsonschema, the HTTP client and the decryption of credentials. The laws of the fixed window's
-- counter are assumed for a window of 0 seconds too, which the configuration refuses.
--
-- Loops. The loops over routes, windows, keywords and entries are recursion on their lists. The
-- loops over attempts (`range(1, attempts_per_route + 1)` and `range(2)`) are recursion on the
-- number of attempts that are left, which starts at the source's bound, so no fuel runs out; so
-- are the rounds of an answer with tools (`_MAX_TOOL_ROUNDS`) and the attempts of a tool. The
-- renewals of a lease around a task are recursion on their number, which the environment gives.
--
-- Not modelled: the HTTP endpoints and their schemas, the web front end and the embedded chat,
-- migrations, scripts, configuration and logging, the adapters of providers and channels, and the
-- runtimes of channels, memory, voice and knowledge, which call the modelled ones or are called
-- by them. Of the errors that the commands of the queue can raise, that of HINCRBY on a value
-- that is not an integer is modelled. A provider that raises another error than AIProviderError
-- and a timeout is left out of the gateway. Numbers in JSON values are natural numbers.
pub mod AgentModels
pub mod AgentRuntime
pub mod AiGateway
pub mod AiModels
pub mod Billing
pub mod ChannelModels
pub mod ChannelQueue
pub mod Conversations
pub mod Decimal
pub mod Handoff
pub mod HandoffModels
pub mod Json
pub mod Models
pub mod Policy
pub mod PolicyModels
pub mod Prelude
pub mod RequestHardening
pub mod ToolModels
pub mod ToolRuntime
