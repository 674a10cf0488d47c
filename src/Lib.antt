-- ===== src/Lib.antt =====
-- Verification of CS2 Predictor, a Telegram bot on whose polls chats predict the results of matches.
--
-- The program. A provider gateway fetches events and matches. For a match that a chat follows, the
-- prediction service sends a poll with the possible scores, stores the votes, and closes, cancels or
-- moves the poll as the match does. When the match is over, the scoring service holds the votes
-- against the result and stores the awards, and the leaderboard ranks the standings they add up to.
-- Who may manage a chat is decided by the authorization service. What is to be told to a chat is
-- written into the outbox with the change it announces, and a dispatcher hands it to a publisher.
--
-- The files.
--   Base: shared helpers. Base/Sort is a stable sort (Go's sort.SliceStable), Base/Maps maps keyed by
--     text, Base/Results a value or an error, Base/Lists and Base/Tests lists and Boolean tests,
--     Base/Digits, Base/Numerals and Base/Splits what the code uses of strconv and strings.
--   Competition: internal/domain/competition/competition.go and the locales of
--     internal/platform/common/ids.go. Series has the formats and scores (PossibleScores, Label,
--     ExactPoints, Outcome), Catalog the teams, events, matches and broadcasts (StreamFor).
--   Prediction: internal/domain/prediction and internal/adapter/postgres/prediction.go. Effects is
--     the monad that the service runs in, Store the tables and SQL statements, Repository the
--     repository, Service the service (Create, RecordVote, CloseDue, CloseForRunningMatch,
--     CancelForMatch, Reschedule). The other files prove: Rows and Keys about the table of polls,
--     Keeps, Lifecycle, Queries and Transitions about its changes, Creation about Create, Voting and
--     VoteFrames about RecordVote.
--   Providers: internal/app/gateway.go. Providers itself is the circuit breaker (circuitOpen,
--     recordSuccess, recordFailure), Calls the constructor, orderedProviders and execute, Grouping
--     Matches, Health the function Health. Backoff, Circuit, Runs, Fallback and Construction prove.
--   Scoring: internal/domain/scoring/scoring.go and service.go, ReplaceAwards of
--     internal/adapter/postgres/scoring.go. Points is Calculate and accuracyPercent, Ranking
--     DenseRank, Settle the settlement, Milestones the ladder of milestone.go.
--     Nominations is PickEventAwards of internal/domain/scoring/awards.go.
--   Chat: internal/domain/chat. Authorization is authorization.go with the permissions of
--     moderator.go, Settings the rules of chat.go; Access, Managers, Presence and Settings/Quiet prove.
--     Invitations and Approvals are invitation.go and pending_approval.go with their repositories in
--     internal/adapter/postgres and the deletion of resolved requests in its retention.go; Spending,
--     Encoding and Approvals/Lifetime prove.
--   Outbox: Table has the statements of internal/adapter/postgres/outbox.go, Dispatch the dispatcher
--     of internal/app/outbox_dispatcher.go, Letters DeadLetters and ReplayDeadLetters, Watch
--     internal/app/dead_letters.go. History is a step relation for the dispatcher among other writers,
--     replays and crashes. Rows, Batch and Outcomes prove what a statement leaves, Sound, Final and
--     Once what holds at every reachable moment, Steps that a run is such steps, Delivery, Budget,
--     Spending and Retries that messages are delivered or given up, Signals what a failure leaves.
--   Callbacks: internal/adapter/telegram/callbackdata.go. Scope has the scopes and keyboards,
--     Permissions the payloads of the permission wizard; Keyboards, Masks and Wizard prove.
--   Subscription: internal/domain/subscription/scope.go (ResolveChatStatsScope).
--   Enrichment: the matching of names, internal/domain/enrichment. Names has the normal forms, Distance
--     levenshtein (team_match.go), Similarity FuzzyNameScore and FuzzyNicknameScore, Identity MatchTeam
--     (identity.go), Rosters MatchRoster (player_match.go). Reviews has the tables and statements of
--     internal/adapter/postgres/team_match.go and the decisions in internal/adapter/telegram/
--     team_match.go, Reviews/Requests ensureRequest and Reviews/Questions AskChatHelpers of
--     internal/app/team_match.go. Changes says what an event may change; Edits, Rows, Scores, Leaders,
--     Matching, Slots, Reasons, Exact, Pairing, Bounds, Rejected, Closed, Caps, Asking and Rounds
--     prove.
--   Settlement: internal/app/settlement.go over the scoring service's Settle, RunInTx of
--     internal/adapter/postgres/db.go and the table of settled polls in
--     internal/adapter/postgres/scoring.go. Tables has the statements and the transaction, Settlement
--     itself Settle, settleOne and enqueueRecaps; Steady, Owed, Settled, Atomic, Again
--     and Calm prove.
--   Examples: runs at concrete inputs.
--
-- State and the outside. The prediction service is a function from a world (the tables, the polls
-- sent, and the number of outside calls so far) to a result and a world. Every statement, Telegram
-- call, clock reading and new id takes the next number, and the environment, which is arbitrary, says
-- what the call with that number does; so each theorem holds for every failure at every point. A
-- statement that does not fail does what its SQL says, the unique constraints included; a transaction
-- that fails changes nothing. The gateway is treated the same way, with its clock and providers.
-- The dispatcher of the outbox is a function on a record of the table, the numbers of the statements
-- and of the publishers' calls, the messages taken and the metrics. Statement n runs at the moment n
-- and is done, refused, or done with its answer lost; a publisher's answer may differ at each call.
-- In a settlement, too, each statement may fail; within a transaction every statement after a failed
-- one fails, and a transaction that fails, its end included, leaves the tables as they were. The
-- statements of ReplaceAwards are taken as one, which a transaction allows. The milestone service is
-- absent, as where it is nil.
-- Names are lists of code points, and case and white space a parameter. The tables of reviews are
-- changed by one event at a time, whose statements do not fail, but for the questions to helpers:
-- AskChatHelpers runs in no transaction, and each of its statements is done, refused, or done with its
-- answer lost. A new request has a new id, and rows with equal scores come in the order of the table.
-- What the time package says of a zone is a parameter; of quiet hours, that it does not put its clock
-- forward or back before the window ends is a hypothesis.
-- Ids are numbers, the zero UUID is 0; times are nanoseconds; a circuit's delay is an int64 and wraps.
--
-- Loops are recursion on the list or the count they run over. The two loops that divide a number
-- until it is 0 (itoa, and strconv's digits) run on fuel, for which the number itself is enough, since
-- it falls in every round.
--
-- Not modelled: the HTTP and Telegram adapters but for the payloads of buttons, the other scheduled
-- jobs, the leaderboard's SQL, search, the sync of rankings, personal insights, most metrics, and
-- concurrency but for the outbox: elsewhere a call runs alone, as a handler does between two others. The retention
-- job deletes published rows of the outbox; the step relation has no such step, so what is said of its
-- rows holds as long as that job does not run. Of the other deletions of the job those of resolved
-- requests for approval are modelled.
pub mod Base
pub mod Competition
pub mod Outbox
pub mod Callbacks
pub mod Chat
pub mod Examples
pub mod Prediction
pub mod Providers
pub mod Scoring
pub mod Settlement
pub mod Enrichment
pub mod Subscription
