-- ===== src/Lib.antt =====
-- A model of the back-office agent of src/fintech_agent: a graph that takes a customer's complaint,
-- fetches evidence, decides by rules, pauses for a human approval where money or an account is
-- touched, and creates drafts, never payments.
--
-- The parts, and the files that model them:
--   Common            texts, numbers, dictionaries and JSON values as Python has them
--   Schemas           schemas/enums.py, evidence.py, case_state.py, actions.py, approval.py
--   Rules             rules/*.py: one module per engine (`decide_train_ticket` and its like), the refund
--                     checks, the conflict rules, risk, idempotency and the authority table; below
--                     each engine a module with the theorems about its decisions
--   Claims            rules/claim_verifier.py and schemas/claim_verification.py: `verify_all_claims`, with
--                     a module per group of verifiers and one per property
--   Audit             audit/audit_logger.py: `log_event`, the masking of details and the queries
--   Graph             graph/state.py (`AgentState`), graph/edges.py (the `after_...` functions) and
--                     what the nodes call outside the graph (Graph/Services)
--   Nodes             nodes/*.py: one function per node, from a state and an audit logger to both
--   Workflow          graph/builder.py: the compiled graph as a machine (`exec`, `step`, `run`)
--   Approvals         workflows/approval_service.py: `register_pending`, `approve_case`, `reject_case`
--   DraftTools        tools/draft_action_tools.py: the tools that create drafts, and their store
--   MoneyActionGuard  safety/money_action_guard.py
--   CaseTransition    api/case_transition.py
--   CaseService       api/service.py: `create_and_run`, the decisions and the queries
--   Verifier          api/customer_claims.py, api/account_verifier.py, workflows/card_payment_dispute.py
--   Registry          workflows/workflow_registry.py and workflows/resolver_contract.py
--   MessageRouter     api/message_router.py
--   MockAuth          api/mock_auth.py
--   Conversation      api/conversation_state.py: the cases of a chat session (Session) and the history of
--                     the claims of a case (Case)
--   Examples          concrete data, and the theorems applied to it
-- All paths are below src/fintech_agent.
--
-- How they interact: the nodes call the rule engines, the claim verifier, the audit logger and the
-- services; the graph runs the nodes and follows the edges; the case service starts a run, stores its
-- end and hands a case that waits for approval to the approval service, which on approval runs the last
-- two nodes; the draft tools stand behind the calls of the draft node and call the guard. On the side of
-- the chat, the router classifies a message with the context of the conversation, and the account
-- verifier compares the claims of a customer with what a resolver has found, for a workflow of the
-- registry.
--
-- State and errors: a node returns the whole new state, where the source returns the changed keys, and
-- the logger that it has mutated. A key of the state that may be absent is an `Option`, or a plain
-- field where every reader has the same default. An exception that leaves a node is `none`; those of
-- the approval service and of the draft tools are constructors of an error type, and a call that raises
-- returns no new state. The calls of tools end in data or in the text of an exception.
--
-- Parameters: the tools behind the MCP client, the language model, the message texts, random
-- identifiers, Python's `int`, `float` and `str.lower` on a text (the latter where the text is Vietnamese),
-- pydantic's `model_validate`, the clock and ISO dates, SHA-256 and the masking of a text; for the chat
-- also the message analyser, the resolver of transactions and the repository of sessions. The theorems
-- hold for every choice of them.
--
-- Fuel: `run` takes a number of steps. `13 + 2 * (max_retries - retry_count)` are enough, since from
-- the first node to the evidence there are at most 3 steps, each retry takes 2, and from the evidence
-- to the end there are at most 10; for the default three retries that is 19, below LangGraph's limit
-- of 25.
--
-- Not modelled: the checks of pydantic that the identifiers of evidence and of audit events are not
-- empty (those of an approval packet, of an approval decision and of a draft are), floats, time stamps,
-- the log file, the pipelines of the chat and their HTTP interface, the resolvers, which query the
-- database, the language model layer, the masking and the guardrails of texts by regular expressions, the
-- database and the message texts.
pub mod Common
pub mod Schemas
pub mod Rules
pub mod Audit
pub mod Graph
pub mod Nodes
pub mod Workflow
pub mod Approvals
pub mod CaseTransition
pub mod MoneyActionGuard
pub mod DraftTools
pub mod Examples
pub mod Claims
pub mod Conversation
pub mod CaseService
pub mod Registry
pub mod Verifier
pub mod MessageRouter
pub mod MockAuth
