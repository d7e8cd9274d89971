-- ===== src/Lib.antt =====
-- The SQL agent answers questions over a database: a language model fills a JSON query plan, the
-- composer turns the plan into SQL, failures are classified and go into a durable queue, and one
-- background learner works the queue off. All calls to the model and the database pass a limiter.
--
-- Parts and files
-- * Base, Text, Python: shared lists, options and results; texts as Python's str has them (lower
--   and upper on the ASCII and Cyrillic letters); JSON values, their truth, str() and int(). A float
--   is its text with its truth and its whole part.
-- * Composer (sqlagent/composer.py): Quote is _quote_ident and _quote_literal, Check is _check_table,
--   _check_column and _owner_of, Parts the loops of assemble_spec over joins, dimensions, measures
--   and filters, Assemble the order, the limit and the text. Query is the abstract query that the
--   text stands for; Sound, Joins, Ordered and Scope relate the two; Scan reads quoted tokens as a
--   lexer does.
-- * Errors (sqlagent/errors.py): ErrorType, error_type_for_message and classify_error.
-- * FailureQueue (sqlagent/failure_queue.py): Table holds the rows and the SQL statements, Operations
--   enqueue, claim, finish and get, Worker the loop of LearnerWorker with its handler as an argument.
--   Keys, Unique, Skill and Count are the parts of the invariant that Reach proves for all histories;
--   Drain is about the loop.
-- * Limiter (sqlagent/concurrency.py): Slots holds AdaptiveLimiter, with one step for what runs
--   between taking the lock and giving it up; Turns, Reached and Recovery are about it.
-- * Analytical (sqlagent/analytical.py): Terms, Expressions, Tables, Stages and Derived hold
--   _compile_stage and the expression language, Plan compile and compile_analytical_plan, Candidates
--   select_analytical_candidate, Scratch compile_scratch. Lexer reads the quoted names of a SQL text;
--   Floats, Names and Scoped are about the names that the compiled SQL reads and the stages that they
--   come from, Grains about the grain, Chosen and Choice about the candidate, Setup about the number of
--   scratch queries.
-- * Database (sqlagent/db.py): ReadOnly is validate_read_only, Words what it says of the words of a
--   query, JsonSafe json_safe on the values of a driver.
-- * Scratch (sqlagent/scratch.py): Session is a connection with what was sent over it, Executor
--   ScratchExecutor.execute, Issued what it sends and returns.
-- * Workspace (sqlagent/workspace.py): Paths is _safe_path on the components of a path, Manifest
--   normalize_manifest and lint_manifest, Canonical and Inside are about them.
-- * Evolution (sqlagent/evolution/graph.py): Surface holds _cluster, _attribute and the allowed paths,
--   Mutation _llm_mutation and _fallback_mutation with the files in the order of their writes, Evolve
--   _mutate, run_evolution and evolve_failure; Guarded is about every file that is written, Bounded
--   about the files that are reported, Reported about what a failure leads to.
-- * Client (sqlagent/llm.py): Schema is _validate_schema, Chat _parse_json and chat_json with the cache
--   and the retries, Provider the same of OpenCodeGoClient; Conforms says what an accepted value looks
--   like, Answered and Refused what a call returns and when it stops to try.
-- * QueryAgent (sqlagent/query_agent/graph.py): Question holds detect_ambiguity and metadata_drift,
--   State is QueryState and the services that the nodes call, Repair is the react_repair node,
--   Generator the sql_generator node, Nodes the others, Graph the edges and the run, Response the
--   status and the error stage of the response. Attempts and Budget are about the recursion limit,
--   Safety about what the execute node finds in the state, Blame and Acceptance about what an answer
--   has gone through.
-- * Evaluator (sqlagent/evaluator/engine.py): Gate is promotion_gate, Promotion what it
--   promises, Promote the flow of promote_candidate with git and the evaluation runs as arguments.
--
-- An exception is a value of Error; a function that may raise returns Py. Each queue operation is
-- one step on the two tables, since it runs in one transaction. Clock readings, fresh identifiers
-- and the SHA-256 fingerprint are arguments. The loop of the learner is rounds on a number, and as
-- many rounds as rows wait are enough. The loop of acquire is one turn at a time, in any order of
-- the callers; the wake-ups of the condition variable are left out.
--
-- The agent's run takes as many steps as the recursion limit of the code, and that is enough. Its
-- route, its loaded files, the rewrite of the optimizer and all answers of the model and the database
-- are arguments (Services): the theorems hold for any of them. The two budgets are natural numbers.
-- What the arithmetic of floats gives is an argument (Pricing) where the cost of a candidate is
-- compared. The tip of the candidate branch at the merge is an argument too, since the merge names the
-- branch and not the commit. The 95th percentiles that the gate compares are thousandths of a
-- millisecond.
--
-- A set of columns is a list that holds each name once, and a dict of stages a list of pairs in the
-- order of their keys. What a SQL server answers to a statement is an argument that may depend on all
-- statements before it.
--
-- A path is the list of its components and the root is resolved; what the symbolic links below a path
-- lead to is an argument. What a YAML file reads as may depend on the files written before, and the
-- YAML printer is an argument.
--
-- Not modelled: the golden evaluation and the counts of the evaluator, the git calls of the workspace,
-- the other methods of the client of the model, the surveyor and the explorer, telemetry, the web
-- pages and the scripts; network, database and file access.
pub mod Base
pub mod Text
pub mod Python
pub mod Composer
pub mod Analytical
pub mod Database
pub mod Scratch
pub mod Workspace
pub mod Evolution
pub mod Evaluator
pub mod Errors
pub mod FailureQueue
pub mod Limiter
pub mod QueryAgent
pub mod Client
