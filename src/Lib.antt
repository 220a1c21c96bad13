-- ===== src/Lib.antt =====
-- agentfork keeps a tree of agent branches: a parent forks children that share its sandbox snapshot
-- and its KV cache, one branch wins, and the others are killed. This library models the parts of
-- the program that decide, and leaves out the input and output around them.
--
-- agentfork/kv/tree_cache.py is the reference model of the KV cache. A root's name is a namespace,
-- a namespace has a radix tree of token runs, and every node of it counts the live branches whose
-- tokens lead through it. Kv/Radix.antt has the nodes and the loops over them: `walk` is `_walk`
-- with `_split`, `bump` the loops that take references, `kill_path` the loops of `kill`, `total`
-- is `_namespace_tokens`, and `leaves` and `prune` serve eviction. A `dict` of children is a
-- chain of entries in insertion order; the parent links of the source are the path that the
-- recursion goes down, so that the loops become structural recursion and need no fuel.
-- Kv/Cache.antt has the object's fields and `create_tree`, `fork_branch` and `kill`;
-- Kv/Cache/Access.antt has `extend` with `_maybe_evict`, and the lookups. A method gives back what
-- it returns or raises beside the cache as it leaves it. Kv/Cache/Valid.antt says what a valid
-- cache is: each namespace holds the tokens of its live branches and nothing else (`Holds` of
-- Kv/Radix/Holds.antt: each node's owners are the branches that go through it, its count is their
-- number, and it is not empty), the counters are the sums they stand for, and the budgets are kept.
-- The files below Kv/Radix/Holds are about the loops, and those below Kv/Cache about the methods;
-- Kv/Cache/Reach.antt has the caches that calls lead to, as a step relation.
-- Token numbers are naturals, and so are the counters; where the source lowers one, the model's
-- subtraction stops at zero.
--
-- agentfork/orchestrator.py gives one name to a sandbox and a branch of the KV cache, and journals
-- what it is about to do in a registry file. Orchestrator.antt has its fields and the guards,
-- Orchestrator/Backends.antt the backends and the write of the file, as a record of functions on a
-- world that the model does not look into, and `_record`, `_forget` and `_replace_branch` with
-- their undoing of a failed write. Orchestrator/Kill.antt is `_kill`, Orchestrator/Spawn.antt is
-- `create_parent` and the `spawn_one` of `fork` with `_rollback_branch`, and
-- Orchestrator/Collect.antt is `renew_lease` and `reconcile` with the loop of `_fan_out` for
-- backends that are not parallel: its pool of threads (orchestrator.py, `_fan_out` where the sandbox
-- has `parallel_lifecycle`) is not modelled, here and in `kill_losers`. A `try` is a case on what the call gave back. Orchestrator/Durable.antt
-- and Orchestrator/Keeps.antt are about the file, Orchestrator/Created.antt about branches that are
-- begun, Orchestrator/Retry.antt and Orchestrator/Reaped.antt about kills. Orchestrator/Fork.antt is
-- `fork`, Orchestrator/Losers.antt `kill_losers`, and Orchestrator/Calls.antt `close`, `reap_expired`,
-- the background sweep and the calls that are passed on to a backend. The search for a free name and
-- the wait for a loser that is in flight are on fuel, with `none` where it ends; what other threads do
-- during the wait is a parameter. Orchestrator/Frame.antt and Orchestrator/Winner.antt are about the
-- records that a kill and `kill_losers` leave. Otherwise a method runs here without another thread in
-- between, and the clock is read once for a method. Not modelled: the loading of a registry, and the
-- start and stop of the background thread.
--
-- agentfork/sandbox/netns.py numbers the network slots of branches. Netns.antt has the allocator,
-- `_allocate`, `release` and `reserve`, over the list of free slots and the cursor, and
-- Netns/Exclusive.antt what slots are in use after each. Netns/Setup.antt has the commands for a branch
-- with `setup` and `teardown`, and Netns/Rollback.antt is about a `setup` that fails.
--
-- agentfork/workload/census.py groups recorded sessions. Census.antt has `common_prefix_len` and
-- `cluster_bursts`, and Census/Bursts.antt what its clusters are.
--
-- agentfork/sandbox/vsock.py and agentfork/sandbox/guest_agent.py exchange one line of JSON each way.
-- Wire.antt has the values, Wire/Line.antt both functions `_read_line` over the pieces that a socket
-- gives, Wire/Client.antt `VsockExecClient`, and Wire/Agent.antt `handle_connection`. `json` and
-- `base64` are a record of functions (`Codec`), and the guest's processes another (`Guest`). A number
-- is an integer, or the `float` that is an integer over a power of two; infinities and NaN are left out.
-- Wire/Framing.antt and Wire/Exchange.antt are about a line in pieces and a command and its answer.
--
-- Http.antt and Http/ are agentfork/kv/sglang_http_backend.py: Http has what its methods do to the
-- counts and sets under the lock, Request the requests (`_request_json`, `_operation`) and the methods
-- that one thread runs, with the body that cannot be built, Threads the sections of all threads as steps of a relation. What the server
-- answers is a function of the attempt's number, and the pauses between the attempts are left out.
--
-- Harness.antt and Harness/ are `TreeAgent` of agentfork/harness/agent.py: Harness has the ledger of
-- prefixes with `_unit`, `_strictly_extends`, `_commit`, `_forget`, `kill_losers` and `prepare_root`,
-- Round `fan_out`, `select_winner`, `run_round` and `solve`. The orchestrator, the work and the evaluator
-- of a round are parameters that may raise and change the orchestrator's state; a score is a value of
-- any type with an order. Lineage is about what a commit charges, Lineage/Children about the results of
-- a `fan_out`, Lineage/Best about the winner, Lineage/Decided about a round; nothing is assumed of the orchestrator but what one theorem
-- says of one `fork`.
--
-- Cost.antt is agentfork/bench/cost_model.py, in whole tokens: the checks of the scenarios, `model` and
-- `pressure_model`. Cost/Replay.antt replays a fanout child by child and compares.
--
-- Reaper.antt is agentfork/kill/reaper.py with `BranchReaper`, and `main` of
-- agentfork/kill/_pdeathsig.py. The system's calls are a record of functions on its state (`System`);
-- Reaper/Over.antt says what is relied on of them, and Reaper/Close.antt is about `kill` and `close`.
--
-- Sglang.antt is `SGLangKVBackend` of agentfork/kv/sglang_backend.py over an engine that is a record of
-- functions (`Engine`), and Sglang/Lengths.antt is about the lengths it keeps, which cover those of the
-- engine: its fork of a speculative parent may cut the child's sequence.
--
-- Base.antt passes on the library's names and has lists, dictionaries as association lists with
-- Python's order of insertion, and text.
--
-- Methods that hold the object's lock are atomic. The monotonic clock is an argument, read once for
-- an operation, where `_walk` reads it at each node: leaves that one `match_prefix` stamps in several
-- namespaces have equal stamps here. Not modelled: the ratio `dedup_ratio`, a floating-point number; the rest of the
-- sandbox (agentfork/sandbox), which is processes, sockets and files; the chat clients of
-- agentfork/harness/adapter.py; the simulator agentfork/bench/pressure_bench.py; demos, benches that
-- measure time, and the patches to SGLang.
pub mod Base
pub mod Kv
pub mod Orchestrator
pub mod Netns
pub mod Census
pub mod Wire
pub mod Http
pub mod Harness
pub mod Cost
pub mod Reaper
pub mod Sglang
