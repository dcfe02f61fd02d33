-- ===== src/Lib.antt =====
-- SERA is an agent server: it runs goals for users, pays merchants out, and lets other programs in
-- over OAuth. This library models the parts of src/ that move money, ask for consent, decide who
-- may act and when.
--
-- The parts, and the files here that model them:
--
-- Settlement (src/capabilities/fintech/dana/). Settlement/Store.antt and Settlement/Reversal.antt
-- are `OrderSettlementStore`: a map of records by order, which every change writes to a file, and
-- which the constructor reads back. Settlement/Request.antt holds the types of a payout (types.ts,
-- and the settlement destination of a store in src/capabilities/communication/services/
-- StoreProfileService.ts); Settlement/Payout.antt its amounts and early answers, over
-- Settlement/Double.antt, the rounded arithmetic of doubles that a fee is computed in, with its
-- bounds and errors in Settlement/Double/;
-- Settlement/Coordinator.antt `settleStoreOrder` up to the provider's call (`begin`), and
-- Settlement/Coordinator/Answer.antt the rest of it on the provider's answer (`finish`), the whole
-- (`settle_store_order`) and `retryFailedSettlements`. The provider is a parameter: a function of
-- the request, the same at each call of one run. Overlapping calls are the step relation of
-- Settlement/Coordinator/Interleaving.antt. Settlement/Ledger.antt runs all writers of the ledger
-- in a sequence. Settlement/Classifier.antt is `SnapResponseClassifier.classify`.
--
-- Governance (src/core/governance/ProposalManager.ts). Governance/Proposals.antt has the pending
-- proposals, their timers and the events emitted, as a log; a timer that is scheduled is a value,
-- and `fire` runs it.
--
-- Auth (src/server/auth/oauth/OAuthStore.ts). Auth/OauthStore.antt has the state, the clients and
-- the signed texts; Auth/Tokens.antt codes, exchange and refresh; Auth/Sessions.antt what a bearer
-- token stands for, and revocation; Auth/LinkCodes.antt the six-digit codes. Hashes, base64url and
-- JSON are the parameter `Crypto`; that an encoding reads back is a hypothesis on the payload.
-- Auth/ApiKeys.antt is the store of API keys (src/mcp/McpApiKeyStore.ts).
--
-- Policy (src/constitution/, src/delegation/). Policy/Constitution.antt has the engine and its
-- rules, Policy/Authority.antt the authority of an action under a delegation. Policy/Agreements.antt
-- is the store of autonomy agreements (src/core/autonomy/AutonomyAgreementStore.ts), each of which
-- gives a delegation to that authority; its effects on one agreement are the step relation of
-- Policy/Agreements/Change.antt.
--
-- Identity. Identity/SessionToken.antt is the signed token of a socket's session
-- (src/server/socket/socketAuth.ts), with the hash and the encoding as the parameter `Signing`;
-- Identity/EmailOtp.antt is the service of one-time passwords (src/core/identity/EmailOtpService.ts),
-- which ends a verification with such a token. The random code and the outcome of the delivery are
-- arguments.
--
-- Billing (src/server/billing/). Billing/Ledger.antt and Billing/Service.antt are the credits of an
-- address, in units that make every rate whole; Billing/Bounty.antt the points that convert to them;
-- Billing/Treasury.antt the watcher that turns deposits on a chain into top-ups. What the chain
-- answers is an argument, and a poll has two steps. Billing/Service/Accounts.antt holds the bank
-- that the service refines.
--
-- Memory (src/memory/WorkingMemory.ts, src/core/memory/). Memory/PolicyEngine.antt is the engine that
-- judges proposals of beliefs (src/core/memory/MemoryPolicyEngine.ts) by the belief that is there.
-- Memory/Working.antt is the working memory, which asks it and carries out what it decides:
-- events, beliefs, an index by category and one by key, with their pruning in
-- Memory/Working/Index.antt; Memory/Working/History.antt runs its calls in a sequence.
-- Memory/Ingress.antt turns events into proposals to it (MemoryIngress.ts), as the engine of
-- hypotheses does (EpistemicPolicyEngine.ts), whose hash is a parameter.
--
-- Spot.antt is the ledger of the tokens that each user holds
-- (src/capabilities/hyperliquid/UserSpotLedger.ts); Spot/Positions.antt the book that it keeps.
--
-- Triggers (src/core/triggers/). Triggers.antt is the store of triggers, Triggers/Engine.antt the
-- engine that fires them on the ticks of a clock; the parser of cron texts is a parameter, as is
-- which listeners of an event throw. A listener is taken to leave the store alone until it returns.
--
-- Chat.antt is the history of a session's chat and of its other channels
-- (src/capabilities/dialogue/ChatHistoryStore.ts), with its file and its snapshot, over the types of
-- Chat/State.antt; Chat/History.antt runs its calls in a sequence.
--
-- Reception.antt is the admission to the public chat and its state
-- (src/reception/publicReceptionRouter.ts), Reception/Question.antt what a visitor sends, and
-- Reception/Chat.antt the handler of `/chat`, in two steps around the call of the provider;
-- Reception/Traffic.antt runs the requests of all clients, in any order.
--
-- Sheets/Columns.antt has the letters of a sheet's columns and the addresses of its cells
-- (src/capabilities/google-drive/spreadsheet/SpreadsheetChartBuilder.ts). The loop that finds the
-- letters is given as many rounds as the number of the column, which its theorem shows to be enough.
--
-- Prelude, Dict and Text are the shared names: lists and options on the native numbers, the
-- `Map` of JavaScript in insertion order, and its `String` operations.
--
-- Conventions. A method takes each clock reading and each random text that it draws as an argument,
-- and the state before it; it returns the state after it. An error thrown is a value. Numbers are
-- natural, but for the index of a column: amounts of payouts are whole rupiah, those of credits and
-- tokens are in units that their files name, a confidence is a number of millionths, a percentage is
-- a number of hundredths, and times are milliseconds. The fee of a payout is computed in doubles, with
-- results below 2^53: the 70 rounds that bring a quotient to 53 bits are enough for one of 10^-4, the
-- rate of the least percentage. Loops are structural, on the lists that they
-- run over, but for the letters of a column and for a number n in decimal, which is written with
-- n + 1 rounds, more than it has digits. Upper and lower case and white space are those of ASCII.
--
-- Not modelled: the user interfaces, which are layout; the database and the contracts, which are in
-- other languages; the HTTP and socket routes; the clients of services (DANA, WhatsApp, Google Drive, Threads,
-- exchanges and chains), which are I/O; prompts and language models, and the regular expressions that
-- read their answers; logging. The goal engine and the evaluation of formulas stand on floating-point
-- arithmetic, and the world state and the opening hours of stores on the runtime's calendar.
pub mod Prelude
pub mod Chat
pub mod Dict
pub mod Text
pub mod Reception
pub mod Settlement
pub mod Governance
pub mod Auth
pub mod Policy
pub mod Identity
pub mod Billing
pub mod Triggers
pub mod Sheets
pub mod Spot
pub mod Memory
