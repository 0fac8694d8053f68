-- ===== src/Lib.antt =====
-- The core of a subnet validator in which a reigning submission, the king, is challenged by others.
--
-- The duel resolver polls the database. Each tick reads a snapshot of the arena (who reigns, which
-- challenge is active, its tally of judged rounds), decides on one action by pure rules, and writes
-- the action with a guard on the state that it saw. Other workers generate, solve, screen and judge
-- tasks meanwhile, which changes the tallies; what they write goes through the same tables. Apart from
-- it, the weight setter turns the recent kings into emission
-- weights, a proxy spreads model requests over upstream endpoints, and the task generator keeps as
-- many units of work in flight as the pools still need.
--
-- Files, with the code that each one models:
--   Duel/Snapshot, Duel/Actions, Duel/Predicates, Duel/Decide: src/tau/duel/snapshot.py, scoring.py,
--     actions.py, predicates.py and decide.py, a definition per function under its name;
--   Duel/Tokens: src/tau/duel/token_efficiency.py; the loop is `add_rounds` over the record `Sums`;
--   Arena/Tables: src/tau/db/models.py and status.py, a table as the list of its rows;
--   Arena/Queries, Arena/Tallies, Arena/Snapshot, Arena/Writes: src/tau/db/duel_resolver.py, a query as
--     a function on the tables, a transaction as a function to the new tables and whether it applied;
--   Resolver/Tick, Resolver/Run: src/tau/workers/duel_resolver/pipeline.py with config.py and
--     telemetry.py; Run has the worker and the others as a step relation;
--   Weights/Compute, Weights/Schedule: src/tau/weights/compute.py, types.py and schedule.py;
--   Weights/Setter: `step` of src/tau/workers/weight_setter/loop.py and src/tau/db/weight_setter.py;
--   Judging/Blinding: src/tau/judging/blinding.py and the verdicts of parsing.py;
--   Proxy/Routing: src/tau/proxy/routing.py, a method as a function on the router's state;
--   Proxy/Budget, Proxy/Server: src/tau/proxy/budget.py and server.py, the checks as functions on the
--     usage, and a request up to its forwarding;
--   Generator/Workqueue: src/tau/workers/task_generator/workqueue.py, a method as a function on the
--     queue; its Slots has the calls of pipeline.py as a step relation;
--   Tasks/Generation, Tasks/Screening, Tasks/Solving, Tasks/Judgments, Tasks/Qualification:
--     src/tau/db/generator.py, task_screening.py, solver.py, judge.py and qualification.py, a
--     transaction as a function to the new tables; Tasks/Rows has the rows by their ids, Tasks/Run the
--     transactions of all workers as one step relation;
--   Solver/Jobs, Solver/Scheduler: src/tau/workers/task_solver/loop.py, a turn of its loop as a
--     function on the jobs in flight and the cooling keys;
--   Judging/Worker, Judging/Fallback: src/tau/workers/judge/pipeline.py and fallback.py;
--   Github/Tokens, Github/Commits, Github/Sampler: src/tau/github/tokens.py, the tests on a commit of
--     types.py and sampler.py, and a round of attempts of sampler.py as a function on its caches;
--   Chain/Registrations, Chain/Watcher: src/tau/db/database.py, a publication as a function on the table of
--     registrations, and the polls of src/tau/bittensor/worker.py;
--   Screener/Runner, Screener/Worker, Judging/Safety: src/tau/workers/task_screener/runner.py and pipeline.py,
--     and the phrases of src/tau/judging/safety.py;
--   Qualification/Parse, Qualification/Policy, Qualification/Client: src/tau/qualification/parse.py, with
--     Python's JSON values as the interface Jsons, policy.py and security_qualification.py;
--   Qualification/Worker: the polls of src/tau/workers/qualification/loop.py;
--   Base, Floats: what the modules share; Tests: runs on small data.
-- The other modules hold lemmas and theorems about the one they stand under.
--
-- Python's floats are the interface Floats: a type with the operations that the code calls, of which
-- nothing is assumed. Shares of emission are counted in hundredths, exactly. Counts, blocks and
-- instants are naturals; where the source raises a difference to 0, the truncated difference is it.
-- So are the delays of the screener, whose product raises an exception where the float overflows.
-- Every loop recurs on a list or on a count, so no fuel is used but for the failed runs of
-- Tasks/Screening/Backoff, where the theorem gives how many are enough.
--
-- Not modelled: SQL itself (a query is translated by what it selects; where `limit 1` leaves a
-- choice, the model takes the first row), sessions and engines, HTTP, logging, telemetry and the
-- reading of the environment. The GitHub publisher is a parameter of a tick, the chain one of a step
-- of the weight setter and SHA-256 one of the blinding; the file of disabled upstreams is the
-- interface DisabledStores of the router. The answers of the LLM clients, the sandboxed runs, the order
-- of the database's texts, BLAKE2b, `str.lower` and the class of white space are parameters, and so are
-- the clock, the random choices and the answers of GitHub and of the chain. The rest of the generator,
-- the reconcile loop of the screener, the requests to GitHub and the publication of a promotion, the
-- prompts and the files of the qualification, the dashboard and the sandbox are left out; of the
-- submissions and the registrations, Tasks/Run takes any that other workers write.
pub mod Base
pub mod Floats
pub mod Duel
pub mod Arena
pub mod Resolver
pub mod Tasks
pub mod Solver
pub mod Weights
pub mod Proxy
pub mod Generator
pub mod Judging
pub mod Github
pub mod Chain
pub mod Screener
pub mod Qualification
pub mod Tests
