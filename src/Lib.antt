-- ===== src/Lib.antt =====
-- Models of the core of OWTF and theorems about them.
--
-- The program. OWTF tests web applications by running plugins against targets. Targets are added by
-- URL and belong to sessions (owtf/managers/target.py, owtf/managers/session.py). The user's choice
-- of targets and plugins becomes rows of a worklist (owtf/managers/worklist.py). The worker manager
-- (owtf/managers/worker.py) keeps a pool of processes and polls it: a worker that has ended its
-- work gets the next row whose target no other worker is at. The plugin runner
-- (owtf/plugin/runner.py) decides in the worker whether the plugin may run, runs it, and saves what
-- it found through owtf/managers/poutput.py. The URLs that plugins and the proxy meet are kept by
-- owtf/managers/url.py, and the HTTP transactions, searched with regular expressions as they are
-- logged, by owtf/managers/transaction.py. Files that processes share are guarded by a lock file
-- (owtf/lib/filelock.py), and workers are stopped by signals (owtf/utils/process.py). The handlers of
-- the HTTP API (owtf/api/handlers) call all of these, and keep the accounts of the users.
--
-- The files.
--   Base, and below it Tests, Lists, Int, Sorting, Text, Dict: notation and lemmas, on the native
--     numbers.
--   Exceptions: owtf/lib/exceptions.py; a function that may raise returns a Result.
--   Db: what the code uses of SQLAlchemy, as the record Table of operations and laws (Db/Table), of
--     the file system (Db/Files), the rows of owtf/models (Db/Models), lists that fulfil the laws
--     (Db/Memory), and what the search functions of the managers share: filtered, ordered and
--     limited selections with their counts (Db/Query).
--   Worklist: owtf/managers/worklist.py, one definition for each function. Theorems on the order in
--     Worklist/Priority, on fetching in Worklist/Take, on adding in Worklist/Add,
--     Worklist/Add/Unique and Worklist/Add/Complete, on switching jobs on and off in Worklist/Switches; load_works is in
--     Worklist/Load, and the listing and the search in Worklist/Listing.
--   Plugins: the queries of owtf/managers/plugin.py.
--   Poutput: owtf/managers/poutput.py. The queries are in Poutput/Criteria, the theorems on
--     deletion in Poutput/Removal, get_severity_freq in Poutput/Severity, and its theorem in
--     Poutput/Severity/Counts.
--   Urls: owtf/managers/url.py and owtf/models/url.py. Urls/Merging has the view of the table that
--     forgets the order of its rows, Urls/Search the listing.
--   Transactions: owtf/managers/transaction.py, as far as it logs and greps. Transactions/Grep has
--     the theorems on one match and Transactions/Grep/Logged those on a whole call. The functions
--     that read are in Transactions/Reading, and Transactions/Reading/Search has their theorems.
--   Targets: owtf/managers/target.py. Targets/Derive computes what is stored of a URL, with theorems on
--     the port in Targets/Derive/Ports; Targets/Adding has theorems on adding, Targets/Listing the
--     queries.
--   Process: owtf/utils/process.py and WorkerManager._signal_children.
--   Worker: owtf/managers/worker.py. The list of worker dictionaries and spawning are in
--     Worker/Pool, the polling in Worker/Dispatch, the operations of the API in Worker/Control. A
--     worker dictionary is a Slot; `work` is () just when it is `none`. What goes out to processes is
--     a list of events. Worker/Slots, Exclusive, Taking, Conserve, Control/Loops, Control/Steps and
--     Control/Effects hold the proofs.
--   FileLock: owtf/lib/filelock.py. FileLock/Acquire has one call of `acquire` over the answers of the
--     system, FileLock/System any number of instances as a step relation, also with calls of `release` by
--     an instance that does not hold the lock.
--   Runner: owtf/plugin/runner.py. Runner/Choice decides what may run, Runner/Registry is the
--     registry of executions, Runner/Rank is rank_plugin, Runner/Run is process_plugin, which takes
--     what the ranking returns or raises as a parameter.
--   Config: owtf/config.py, with its theorems in Config/Reading.
--   Params: owtf/plugin/params.py. Params/Repeat has the permutations and get_args, Params/Repeat/Never the
--     theorems on them, and Params/Passed those on what a plugin is given.
--   Timer: the timers of owtf/utils/timer.py.
--   Sessions: owtf/managers/session.py, owtf/models/session.py, and delete_target of
--     owtf/managers/target.py. Sessions/Active has the theorems on the active session, Sessions/Links,
--     Deletion, Orphans and Membership those on the membership of targets.
--   Api: a handler as a program over a state and the answer that was sent (owtf/api/handlers/base.py).
--     Api/Auth has registration, login, logout and the decorator of owtf/api/handlers/jwtauth.py, with
--     theorems in Api/Auth/Login and Api/Auth/Register. Api/Recovery has the activation of an account and the
--     change of a password, with theorems in Api/Recovery/Activation, FirstLogin and Password.
--     Api/Work has owtf/api/handlers/work.py, and Api/Work/Requests a theorem on pausing.
--   Examples: the theorems at concrete inputs.
--
-- What is assumed of code outside the repository. A table gives a new row an id that no row has, and
-- deletes and updates the rows of a query. The count of rows of the worklist does not see a row that
-- is not flushed yet, the other queries flush before they read, and a unique constraint is tested as a
-- row is flushed. Rows come in the order of their keys where the code asks for none. The
-- relations of a row (its target and its plugin) are functions, with
-- the law that they follow its foreign key where a theorem needs it. psutil gives the children of a
-- process and the survivors of a signal, and raises where a process is gone. Removing a folder makes it absent. Hashing and checking of
-- passwords, tokens that encode and decode, one-time passwords, random keys, regular expressions, the
-- parsing of URLs, name resolution, codecs, what a text column makes of bytes, LIKE patterns, the conversion of a text to a number,
-- paths of folders, the text of a list, and json.dumps are parameters. Tornado raises
-- a RuntimeError when a handler answers a request that is already answered.
--
-- Bounds and fuel. The loop of spawn_workers runs on the allowed number of processes as fuel, and a
-- theorem shows that it ends by its own test. The loop of set_permutation runs on rounds,
-- and a theorem shows when no number of them is enough. The loop of `acquire` runs over the answers that the
-- system gives, and its result says when it still waits. All other loops are recursion on lists.
--
-- What is not modelled. The proxy, the requester, the shell, and the plugins themselves are input and
-- output. The configuration files and the resource manager, the registry of commands, the handlers
-- of the API other than those of accounts and work, the log of transactions that the proxy writes, the search
-- of transactions by the name of a regular expression, and the change of an output by the user are
-- not covered, and of the models only the columns that the modelled code reads.

pub mod Api
pub mod Base
pub mod Config
pub mod Db
pub mod Examples
pub mod Exceptions
pub mod FileLock
pub mod Params
pub mod Plugins
pub mod Poutput
pub mod Process
pub mod Runner
pub mod Sessions
pub mod Targets
pub mod Timer
pub mod Transactions
pub mod Urls
pub mod Worker
pub mod Worklist
