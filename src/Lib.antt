-- ===== src/Lib.antt =====
-- Verification of DistribAI: the credits of the grid, its governance, and its store of jobs.
--
-- The program. Contributors lend machines to a grid and earn credits. The worker's daemon books them in
-- a hash-chained ledger, and lets their owners vote on proposals; the server keeps jobs, tasks, nodes
-- and credits in SQL, gives tasks to nodes, and moves credits between nodes. Modelled are
--   legacy/worker/src/daemon/voting_system.py: VotingSystem and QuadraticVotingSystem, a subclass
--     that calls the base class for payments and plain ballots;
--   legacy/worker/src/daemon/credit_ledger.py: MerkleTree, and CreditLedger, which builds a tree over
--     the hashes of its records whenever it ends a batch; EnhancedCreditLedger, a subclass, books
--     stakes in it, and credits vesting releases;
--   legacy/services_python/db/_credits.py: the ledger of credits in SQL;
--   legacy/services_python/credit_transfers.py: CreditTransferManager, which writes a transfer to the
--     SQL ledger first, and then to the CreditLedger;
--   legacy/services_python/credit_multipliers.py: CreditMultiplierEngine, what a task's credits are
--     multiplied by, and their daily cap;
--   legacy/services_python/db/_tasks.py, _jobs.py, _nodes.py and _votes.py: the tables of jobs, tasks
--     and nodes; legacy/services_python/scheduler.py: TaskScheduler, which gives the tasks in the queue
--     of that store to idle nodes and sweeps those that went stale;
--   legacy/services_python/rate_limiter.py: TokenBucket and RateLimiter, before the server's handlers;
--   legacy/services_python/pagination.py: the pages of what the handlers list.
-- A voting account is filled by add_credits, and not from a ledger.
--
-- Which module models what.
--   Base: the shared helpers. Tests has Boolean tests and Outcome (a method's return or its exception),
--     Lists, Sorting (sorted and ORDER BY), Int (signed integers over the native numbers) and Dict (a
--     Python dict, in insertion order).
--   Voting.Types: the enums and dataclasses of voting_system.py.
--   Voting.Accounts, Ballots, Finalize, Delegation, Signatures: the methods of VotingSystem, under
--     their own names; Voting.Requests is a run of calls of any of them.
--   Voting.Quadratic: the methods of QuadraticVotingSystem.
--   Ledger.Types: the dataclasses of credit_ledger.py and the functions that it calls.
--   Ledger.Merkle: MerkleTree. Ledger.Chain: the methods of CreditLedger that write.
--     Ledger.Queries: those that read. Ledger.Writes: a run of writes.
--   Ledger.Staking: stake, unstake, slash and the statistics of EnhancedCreditLedger. Ledger.Vesting: its vesting
--     schedules and their releases.
--   Credits.Store: the SQL ledger. Credits.Transfers: the limits and records of
--     CreditTransferManager, over the interface CreditStore of the two calls that it makes of the
--     database; its child Sync is _transfer_sync, Sql fills the interface with Credits.Store, Mirror
--     relates the database to the CreditLedger, History has the methods that report.
--     Credits.Multipliers: CreditMultiplierEngine.
--   Jobs.Tables: the rows of the tables. Jobs.Tasks: TasksMixin. Jobs.Queue, Refresh, Create and Admin:
--     JobsMixin. Jobs.Nodes: NodesMixin. Jobs.Scheduler: TaskScheduler. Jobs.Attempts.Steps has the
--     relation of one call on the store, Retries what an operator's retry adds.
--   RateLimit.Bucket, RateLimit.Limiter: the two classes of rate_limiter.py.
--   Pagination: the functions of pagination.py that count.
--   The modules below these hold the theorems; Examples hold their instances, and tests.
--
-- How state and calls are modelled. A method is a function from its arguments and the object's state
-- to its result and the new state. A write to an object in a dict is a write of the dict's entry.
-- Every reading of the clock is an argument, in the order in which the code reads it; where a loop
-- reads the clock at every turn (append_batch, get_active_votes, refresh_queue_positions, releases), or
-- a call of the store reads it again, the readings are taken to be equal. An exception is a value of
-- Outcome, beside the state that it leaves. A lock or a transaction is held throughout the methods that
-- take one, so each call is one step; so is a pass of the scheduler, which awaits the store in between.
--
-- The tasks of a scheduler's pass are dicts, or rows of sqlite3, whose missing method get is an
-- exception; the store hands out rows. Where the signed ledger raises while a transfer is mirrored is
-- an argument.
--
-- SQL. A table is the list of its rows in the order of their insertion, and a statement is the function
-- on rows that its text says; rows without an ORDER BY come in the table's order. A column that every
-- insertion of the code fills is taken not to be NULL. Identifiers and notes are taken to be shorter
-- than the lengths at which transfer_credits_between_nodes cuts them.
--
-- Numbers. An amount of credits is a signed number of millionths of a credit, a share is a number of
-- percents, a multiplier a number of tenths, a time a natural number of seconds: sums, differences and comparisons are exact, where
-- Python computes with floats; a yield, a slashed amount and a monthly release are rounded down, a
-- job's progress to the nearest hundredth of a percent, the answers of
-- calculate_credits to hundredths of a credit, a half to the even number. A name is a number, and 0 is the empty string;
-- strings are only compared and tested for emptiness, or handed to functions that are parameters.
--
-- Parameters, which stand for hashlib, hmac, struct, secrets, json and the encoding of strings:
-- Voting.Signatures.Platform, Voting.Quadratic.Hashing, Ledger.Types.Platform, the digest of
-- Credits.Store, Credits.Transfers.Digests, Jobs.Scheduler.Loads, the tokens of create_tasks, and the
-- callback of execute_proposal. Nothing is assumed of them but what a theorem names.
--
-- Fuel. The walk that looks for a cycle of delegations has one unit more than there are accounts, and
-- ends at the end of the chain, or at an account that it has seen, before it runs out. The levels of
-- a Merkle tree have one unit for each leaf, and every level is shorter than the one below it. The
-- climb of get_proof has one unit for each leaf too, and the height of the tree is less than that. The
-- loop of create_tasks has one unit for each step of the job, and every turn takes one step at least.
--
-- Not modelled: get_quadratic_stats, insert_job, the names of priority lanes, the
-- client's name from HTTP headers and the middleware of the rate limiter, the message that carries a
-- task to its node, webhooks, the schema and its migrations, the log messages, and the other parts of
-- the repository: servers, training, sandboxes, dashboards and the C++ port.
pub mod Base
pub mod Voting
pub mod Ledger
pub mod RateLimit
pub mod Credits
pub mod Jobs
pub mod Pagination
