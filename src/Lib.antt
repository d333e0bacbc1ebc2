-- ===== src/Lib.antt =====
-- Verification library of the Go code of this repository: the Platform server, which keeps wallets
-- for the use of official models, and PinchBot, the agent that calls the models.
--
-- Parts, and the files that model them (paths from the repository's root):
--
-- * Platform is the wallet store of Platform/internal/service/memory_store.go, `MemoryStore`.
--   Platform/Types holds the records of service.go and governance.go, Platform/Store the state
--   and the methods: Store/State (the maps, appendTransactionLocked), Store/Users (identities),
--   Store/Wallet (SetBalance, GetWallet, Credit, Debit and the adjustments of operators),
--   Store/Orders (SaveOrder, FinalizeRechargeOrder and the reads), Store/Refunds
--   (ApplyRefundDecision). Store/Entries says what a ledger entry is. Platform/Ledger makes the
--   methods calls of one state, SetBalance and AppendTransaction among them, and proves what
--   histories of calls leave. Platform/Billing is the
--   part of ProxyOfficialChat, service.go, that charges the wallet: it calls the store's methods.
--   Platform/Failover is shouldSkipPrimaryDuringCooldown, recordPrimaryFailure and
--   clearPrimaryFailures of service.go. Platform/Proxy is ProxyOfficialChatRequest, service.go:
--   Proxy/Models sets and lists the official models, and forgets the failures of other models;
--   Proxy/Names resolves the name of a model, Proxy/Candidates lists the models that may answer,
--   Proxy itself makes the calls with the failover and charges the wallet, Proxy/Request is the
--   method as a whole.
-- * Platform/Service is the payment methods of service.go and governance.go over that store:
--   Service/Provider is Platform/internal/payments/provider.go, the interface as a record of
--   functions; Service/Recharge is CreateRechargeOrder, HandleSuccessfulRecharge and
--   HandleSuccessfulRechargeCallback; Service/Refunding is CreateRefundRequest,
--   ReviewRefundRequest, ApproveRefundRequest and MarkRefundSettled; Service/Reconcile is
--   ReconcileRechargeOrder and what it calls. The other modules below it are proofs: Service/Sound
--   and Service/History for whole histories of calls, Callback, Approval, Closed and Request for
--   one method each.
-- * Providers is PinchBot/pkg/providers: Providers/Cooldown is cooldown.go, Providers/ModelRef is
--   model_ref.go, Providers/Fallback the candidates and layers of fallback.go, Providers/Chain its
--   Execute and ExecuteImage. The chain asks the cooldown tracker before a model call and reports
--   to it after the call, under the key of ModelKey.
-- * Session is PinchBot/pkg/session/manager.go; Session/Spec is the abstract view of one
--   conversation.
-- * Media is PinchBot/pkg/media/store.go.
-- * Routing is PinchBot/pkg/routing: Routing/AgentId is agent_id.go, Routing/SessionKey
--   session_key.go, Routing/Route route.go with the bindings of PinchBot/pkg/config/config.go.
-- * Base holds what they share: maps and sets as lists (Dict), Go's integers (Int, Int64), the
--   functions of `strings` (Text, with laws in TextLaws), and lists and tests over the native numbers.
--
-- Choices. A method that holds a lock is one step. The clock is an argument: in the wallet store a
-- call has one reading for each place at which it reads the clock. An int64 wraps around at 2 ^ 63;
-- the token counts and the failure counters of PinchBot are natural numbers, which stay below it.
-- Case conversion and white space are those of ASCII, and the limit of 64 on an agent id counts
-- characters. `decimal` prints with fuel for 20 digits, and an int64 has at most 19. Every loop is
-- structural recursion: over the list that it ranges over, and over the attempts that are left.
-- The order of a Go map is the order of insertion, and no theorem depends on it. A payment
-- provider that answers with an error answers with nothing else. The sort of the candidates is an
-- insertion sort by the comparison of the code. Answers from outside (model calls, the payment
-- provider, the context, error classification, the file system, the package uuid, the chat client,
-- the outside failure store, Unicode's letters and digits) are arguments.
--
-- Not modelled: the agreements, operators, reports, policies, notices, risk rules and list methods
-- of the store, which touch no balance; the PostgreSQL store, the HTTP interface, the clients of the
-- payment services and the configuration of the Platform; the settings and statistics of service.go
-- and governance.go; saving and loading of sessions; the background cleaner of the media store; the
-- text of FallbackExhaustedError; error_classifier.go; the choice of a model by the weight of a
-- message (features.go, classifier.go and router.go of routing); the agent, its tools, channels,
-- memory and schedule; the Launcher and the admin console. These are input and output, glue, or code
-- in other languages, or they are not part of the components above.
pub mod Base
pub mod Platform
pub mod Providers
pub mod Routing
pub mod Session
pub mod Media
