-- ===== src/Lib.antt =====
-- The platform runs an agent for a person under the agent's own workload identity. A model proposes tool
-- calls (app/agent), the tool server decides and executes them (app/tools), people approve what policy
-- holds (app/approvals), a gateway limits what each agent spends on the model (app/gateway), and an audit
-- trail records all of it (app/audit). The tools act on simulated systems (app/simulators).
--
-- Common holds what the parts share: Boolean tests, lists measured by native numbers, Python's `dict` as a
-- list of pairs in insertion order, and the interface Values of the Python values that arguments hold,
-- with app/common/schema.py written against it. Common/Sample.antt instantiates it for the tests.
--
-- Approvals: app/approvals/store.py. Approvals/Store.antt has `ApprovalStore` (create, get, pending, all,
-- pending_count, decide, verify) as functions on a dictionary, Approvals/Postgres.antt the SQL of
-- `PostgresApprovalStore` on a list of rows; new ids and the time are arguments, and the values that
-- PostgreSQL refuses a parameter.
--
-- Gateway: app/gateway/limits.py. Gateway/Limits.antt has `Limiter`, Gateway/Durable.antt `PostgresLimiter`, with
-- times in microseconds. Gateway/Chat.antt is the request of app/gateway/app.py over the first of them.
--
-- Agent: Agent/Graph.antt has the nodes and routers of app/agent/graph.py, Agent/Graph/Session.antt the
-- compiled graph, a run to the next pause and a session of resumes; the dependencies of the graph are a
-- state machine over a world. A run has the fuel of Agent/Graph/Session.antt, which is proved to be enough.
-- Agent/Guardrails.antt is app/agent/guardrails.py, Agent/Llm.antt `decide_tool` of app/agent/llm.py, with
-- the call of the model, the JSON parser and the regular expressions as parameters.
--
-- Sandbox: Sandbox.antt is app/sandbox/app.py, the simulated systems behind a REST contract, Sandbox/State.antt
-- app/sandbox/persistence.py. Tools/Backends.antt has the interface `Backend` of app/tools/backends.py with its two
-- implementations, the simulators in the process and the sandbox over HTTP. What lies between the second and the
-- handlers (httpx, the router, the JSON of an amount) is the record Transport. Tools/Catalog.antt has the
-- tools of app/tools/catalog.py over such a backend.
--
-- Tools: Tools/Enforcement.antt is `ToolEnforcer.call` of app/tools/enforcement.py; it returns the result and
-- the effects, which are the audit lines and the runs of handlers. It stands on Tools/Tokens.antt
-- (sdk/agentnhi/tokens.py), Tools/Policy.antt (sdk/agentnhi/policy.py), Tools/Workload.antt
-- (app/common/workload.py) and Tools/Revocation.antt (app/common/revocation.py); the decoding of tokens
-- and the servers behind them are parameters.
--
-- Simulators: Simulators/Payments.antt is app/simulators/payments.py; amounts are an interface. Simulators/Tickets.antt and
-- Simulators/Crm.antt are app/simulators/tickets.py and app/simulators/crm.py, Simulators/Demo.antt the records of
-- app/simulators/data.py, and Simulators/Systems.antt the snapshot of app/simulators/__init__.py.
--
-- Audit: Audit.antt is app/audit/store.py, and Revocations.antt app/api/revocations.py, the store behind the
-- denylist that Tools/Revocation.antt caches; both have the in-memory and the Postgres backend. Audit/Redaction.antt is
-- sdk/agentnhi/audit.py, with the regular expressions as parameters.
--
-- Api: the routes of app/api/main.py over these stores. Api/Authz.antt is app/api/authz.py, Api/State.antt the
-- stores behind the routes, Api/Approvals.antt, Api/Workloads.antt and Api/Oversight.antt the handlers, each
-- with the dependencies that FastAPI calls before it; Api/Main.antt has `serve`, one request that changes
-- the state, and `serve_all`, a series of them. Api/Users.antt has the account routes of app/api/admin.py and
-- the enrollment of app/api/auth.py over the identity provider, which is a parameter.
--
-- Not modelled: the HTTP and MCP transports, TLS and the SPIFFE workload API, tracing and logging, the
-- configuration from the environment, the web console, the Rego policy and
-- the deployment, which are I/O or not the Python core;
-- login, refresh and the client of the identity provider (app/api/auth.py, app/api/identity.py). Locks are not modelled:
-- each operation is one step. Nor is the OverflowError that `float` and `int` may raise in app/common/schema.py.
pub mod Common
pub mod Approvals
pub mod Gateway
pub mod Agent
pub mod Audit
pub mod Tools
pub mod Sandbox
pub mod Simulators
pub mod Revocations
pub mod Api
