-- ===== src/Lib.antt =====
-- cj-store is a Minecraft shop: a bot trades items with players, a store task keeps the orders, the
-- ledger and the warehouse, and files keep what must survive a crash. This library models the core
-- of the store task and of the files it depends on.
--
-- The parts, and the files here that model them:
-- * src/fsutil.rs, the atomic write with its fallback and the move of a file aside: Fsutil. One
--   target's sibling files are the fields of `Siblings`, and the answers of the system calls are the
--   fields of `Faults`, so that a theorem for all faults covers every failure.
-- * src/store/queue.rs, the persistent queue of orders: Queue. The functions have the source's
--   names; each takes the queue in memory and the files, and gives both back. Queue/Effects is
--   about one call, Queue/Runs and Queue/Fifo about any sequence of calls, Queue/Load about a
--   restart, and Queue/View holds what players are shown.
-- * src/store/trade_state.rs, the states of the one trade in flight and their copy on disk:
--   TradeState. TradeState/Phases is about one transition, TradeState/Steps about whole lives of a
--   trade, TradeState/Mirror about the copy.
-- * src/store/mod.rs (`process_next_order`, `advance_trade`) and the command `ClearStuckOrder` of
--   src/store/handlers/cli.rs: Store. An order goes from the queue to the trade in Store/Handover,
--   Store/Outcome is about a whole turn of the loop, and Store/Operator about that command.
-- * src/store/journal.rs and the journal's part of the start in src/bot/mod.rs: Journal.
-- * src/types, the warehouse of nodes, chests and slots, its withdrawals and their dry run:
--   Types and Storage. Storage/Deposit is the first phase of `deposit_plan`, which tops up the chests
--   of the item, and Storage/Claim its second phase, which claims empty chests and adds nodes, and
--   the whole plan. Storage/Foresee is the dry run `simulate_deposit_plan`, Storage/Layout the places
--   and the identifiers of nodes. src/types/item_id.rs is ItemNames.
-- * src/store/state.rs (`apply_chest_sync`), src/store/rollback.rs and `execute_chest_transfers` of
--   src/store/orders.rs: ChestSync, Rollback and Transfers. The bot's answers to come are a list,
--   whose end is the closed channel, and the instructions that it got are recorded.
-- * src/store/pricing.rs, the prices: Prices. src/types/user.rs, src/types/pair.rs and the audit of
--   src/store/state.rs: Ledger. src/store/utils.rs: Shop, the part of the store that a handler works
--   on. `handle_buy_order` and `handle_sell_order` of src/store/orders.rs: Buy and Sell. Deposits and
--   withdrawals of diamonds in src/store/handlers: Deposits and Withdrawals. What the handlers' proofs
--   share is in Course. Payments, `pay_async` of src/store/handlers/info.rs: Pay. All of them stand
--   over any operations on `f64`, the record `Float`.
-- * src/store/command.rs and src/store/handlers/validation.rs, the parser of commands: Commands. The
--   way of a command to its handler in src/store/handlers/player.rs: Player.
-- * src/store/rate_limit.rs, the limiter of players' messages: RateLimit. RateLimit/Cooldown is about
--   one user's record, RateLimit/Gate and RateLimit/Next about the table, and RateLimit/Spacing about
--   the messages of one user among those of all.
-- * src/chat/conversation.rs, of the assistant that talks with players the parts that only compute:
--   Chat/Routing, which sends a whisper to the store or to the chat, with the default prefixes of
--   src/config.rs, Chat/Distance, the distance of two texts that a typo is found by, and
--   Chat/SpamGuard, which ignores a sender for a while.
-- * src/messages.rs, what these parts send one another: Messages. The delays of src/constants.rs:
--   Backoff.
--
-- The queue hands an order to the trade through two files, and each of them is written by the
-- atomic write; the archives of damaged files go through the move aside. The library serde_json is
-- the parameter `Serde` of every definition that reads or writes JSON, and its round trip is the
-- hypothesis `IsFaithful` where a theorem needs it, for the values that it reads back exactly:
-- those without an `f64`, as the feature `float_roundtrip` is off. The lower case of a text beyond
-- ASCII is the parameter `to_lowercase` of the router. Time is an argument in nanoseconds.
--
-- Bounds. A loop of the source over a collection is a recursion on a list. The loop that looks for a
-- free archive name runs on its own bound, 1000 tries, and the one that lets the warehouse grow in a
-- rollback on its 16, so that they need no other fuel; `claim_loop` has a try for each item, which is
-- proved to be enough, as every claim takes in one at least. Machine integers: the identifier
-- counters wrap at 2^64, the theorems on runs state that they stay below; the limiter's counters and
-- those of a rollback saturate as in the source; `i32` amounts are integers without bounds, and only
-- the total of an item and the sum over the steps that a rollback skips wrap.
--
-- Not modelled: fsync, which changes nothing that a running program reads; the retries of renames
-- on Windows; log lines and texts shown to players. In Store, an order's handler is a list of the
-- calls of `advance_trade` that it makes, with any outcomes; Buy/Course and Sell/Course are about
-- those of purchases and sales. The operators' commands and those that only show something are not
-- modelled, nor are the rest of the chat, the bot's movements, the command line, the rest of the
-- configuration and the files of the ledger.
pub mod Backoff
pub mod Buy
pub mod Chat
pub mod ChestSync
pub mod Commands
pub mod Course
pub mod Deposits
pub mod Float
pub mod Fsutil
pub mod ItemNames
pub mod Journal
pub mod Ledger
pub mod Messages
pub mod Pay
pub mod Player
pub mod Prelude
pub mod Prices
pub mod Queue
pub mod RateLimit
pub mod Rollback
pub mod Sell
pub mod Serde
pub mod Shop
pub mod Storage
pub mod Store
pub mod Tests
pub mod TradeState
pub mod Transfers
pub mod Types
pub mod Withdrawals
