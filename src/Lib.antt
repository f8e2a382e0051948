-- ===== src/Lib.antt =====
-- Verification of TradePal Africa: the core of money, stock, prices, trade
-- and delivery under src/domain.
--
-- The program is the back end of a trading service for small merchants. Its core keeps, for each
-- business, double-entry books, movement-based stock, price lists, trade documents and refunds, in
-- rows of a database, and delivers events through an outbox. Stock posts its movements to the books
-- of Accounting, Stock and Trade round with Rounding; the other parts stand on Base alone. The
-- parts that are modelled:
--
--   Rounding          src/domain/rounding.ts: divRoundHalfUp, percentOfBps and
--                     allocateProportionally. Below it, Rounding/Division is about quotients,
--                     Rounding/HandOut, Order and Shares about the loop over the remainders, and
--                     Rounding/Contract about the call behind its guards.
--   Accounting        src/domain/accounting.ts. Chart and Books hold the rows and
--                     ensureChartOfAccounts; Posting has insertEntry, postJournal and
--                     reverseJournalEntry; Rules the posting rules from postSale to
--                     postCashAdjustment; Reading trialBalance and accountNet; Legacy the bridge
--                     from the transactions of the older ledger. Requests runs any sequence of
--                     these calls.
--   Stock             src/domain/stock.ts. Rows has the rows, getStockLevel and the policy; Costing what a
--                     movement does to the average cost; Journalling journalMovementIfEnabled,
--                     which calls Accounting on the same books; Movements postMovementTx and
--                     postStockMovement; Everyday the calls from receiveStock to
--                     reverseStockMovement; Reservations and Fulfilment the holds from
--                     reserveStock to fulfilReservation; Counts and Transfers the counts and the
--                     transfers between shops; Reconciling reconcileStock; Legacy the bridge from
--                     the older inventory. Requests runs any sequence of these calls.
--   Delivery          src/domain/outbox.ts, callbackInbox.ts and retryPolicy.ts. Retry has the delays,
--                     Queue the rows, the claim and the loop of a sweep, Outbox and Inbox the calls.
--                     Rows, Ends and SinglePass show a sweep as one pass over the table; Progress and
--                     Liveness are about sweeps one after the other.
--   Pricing           src/domain/pricing.ts. Best has bestRule, Resolve resolvePrice, Lists the writes;
--                     BestRule, Minimum and StatedMinimum are about them.
--   Trade             src/domain/trade/common.ts and credit.ts. Value has cumulativeValue and the charges
--                     that shipOrder of fulfilment.ts takes from it, Credit evaluateTradeCredit, with
--                     sumTotals of orders.ts; Charging, Backlog and Exposure are about them.
--   Money             src/domain/money.ts, on texts that are lists of character codes: Digits is about
--                     the digits of a number, RoundTrip about formatting and parsing.
--   Refunds           src/domain/merchantPayments/refunds.ts. Rows has the tables and their updates,
--                     Calls refundThroughProvider with what it calls, Outcomes applyRefundOutcome;
--                     Covered, Safety, Bound and History are about what is reserved and captured.
--   Policy            src/domain/paymentPurpose.ts and riskLabel.ts, in Purpose and Risk.
--   Base              the shared helpers: Boolean tests, lists, integers, calls on a state.
--
-- A call on the rows of one business is a function from the state to an outcome, a value or the
-- error thrown, and the state it leaves (Base/Outcome). `transaction` is withScopedTransaction: a
-- throw brings the state back. Outside a transaction what was written before a throw stays. A bigint
-- is an integer without bound, and so is a number, whose whole values the code insists on. Ids that
-- the database draws come from a counter, the time that `new Date()` reads is a field, and a key
-- built from a template is a constructor with its parts. insertEntry, which runs outside a
-- transaction, takes what other clients write between its look-up and its insert as a parameter.
-- The loops are recursions on lists. Only the digits of a number are found on fuel, the number and
-- one, and the round trip of amounts shows that it is enough.
--
-- Code outside the repository's sources is a parameter. Handlers of events are functions of the
-- row, payment adapters answer a refund as they like, the runtime's lower case and trimming are
-- functions on names and texts, the order and limit of the query in expireReservations is a
-- function on lists, and a feature flag is a Boolean. Of the repository's own code, what the
-- modules of src/domain/store check of a refund, and whether they book it, are parameters of
-- Refunds.
--
-- Other clients: the rows that another sweeper holds at the claim of a sweep, and what others
-- write between the reservation of a refund and its insertion, are parameters. What they write
-- between the claim of a sweep and its last update is not modelled. The row locks are not
-- modelled: the calls of stock transactions follow one another. Nor is the 32-bit width of the
-- stock columns.
--
-- Not modelled as well: texts and actors that nothing reads back; the rest of src/domain/trade and
-- of src/domain/merchantPayments; src/domain/store and src/domain/subscriptions; the legacy
-- ledger, debts and inventory; the catalogue. Chats, HTTP, workers, provider clients and the
-- frontends are input and output.
pub mod Base
pub mod Accounting
pub mod Delivery
pub mod Money
pub mod Policy
pub mod Pricing
pub mod Refunds
pub mod Rounding
pub mod Stock
pub mod Trade
