-- ===== src/Sglang/Tests.antt =====
-- Calls of agentfork/kv/sglang_backend.py on an engine that keeps the lengths of its sequences
use agentfork.Base.{
  ◌-◌, ℕ, ◌+◌, String, ◌≡◌, refl, Option, none, some, List, [], ◌∷◌, length, same, arith,
}
use agentfork.Base.Dict.{Dict, lookup, insert, erase, lookup-insert, lookup-erase}
use agentfork.Base.Int.{pos}
use agentfork.Sglang.{
  Call, Engine, SglangKvBackend, ok, failed, key_error, engine_error, create_tree, fork, kill_tree,
  extend_tree, creates, forks, kills, extends, after_all,
}
use agentfork.Sglang.Lengths.{SetsUpTo, Covers, Lawful, Tracks, after_all-Tracks}

program : Unit {0}
unfolding lookup insert erase same create_tree fork kill_tree extend_tree
program = tt

abbrev or_zero : Option ℕ → ℕ
or_zero none = 0
or_zero (some n) = n

abbrev forked : String → Option String → Option ℕ → Dict ℕ → Option String × Dict ℕ
forked parent none n e = (none, e)
forked parent (some c) none e = (none, e)
forked parent (some c) (some n) e = (some c, insert c (n - 1) e)

-- A fork loses the last token of its parent.
abbrev engine : Engine (Dict ℕ)
engine = record {
  create_agent_tree = λ id e. (some tt, insert id 0 e);
  fork_branch = λ parent child e. forked parent child (lookup parent e) e;
  kill_tree = λ id e. (some 5, erase id e);
  extend_tree = λ id tokens e. (some 1, insert id (or_zero (lookup id e) + length tokens) e);
}

abbrev of_branch : Dict ℕ → String → Option ℕ
of_branch e id = lookup id e

abbrev empty_backend : SglangKvBackend (Dict ℕ)
empty_backend = record { cache = []; lengths = [] }

abbrev one : SglangKvBackend (Dict ℕ)
one = after_all engine (creates "a" ∷ extends "a" (7 ∷ 8 ∷ []) ∷ []) empty_backend

calls :
    ((extend_tree engine "a" (9 ∷ []) one).0 ≡ ok (pos 1))
    × ((extend_tree engine "b" (9 ∷ []) one).0 ≡ failed key_error)
    × ((fork engine "a" none one).0 ≡ failed engine_error)
    × ((fork engine "a" (some "b") one).0 ≡ ok "b")
unfolding program
calls = (refl, refl, refl, refl)

forked-Sets :
    (parent : String) (child : Option String) (n : Option ℕ) (e : Dict ℕ)
    → SetsUpTo of_branch e n (forked parent child n e)
forked-Sets parent child none e = tt
forked-Sets parent none (some n) e = (n, omega arith, λ j. refl)
forked-Sets parent (some c) (some n) e = (n - 1, omega arith, λ j. lookup-insert c j (n - 1) e)

engine-Lawful : Lawful engine of_branch
engine-Lawful = record {
  sets_created = λ id e j. lookup-insert id j 0 e;
  sets_forked = λ parent child e. forked-Sets parent child (lookup parent e) e;
  sets_killed = λ id e j. lookup-erase id j e;
  sets_extended = λ id tokens e n h j.
      ground (arith, h, lookup-insert id j (or_zero (lookup id e) + length tokens) e);
}

empty-Tracks : Tracks engine of_branch engine-Lawful empty_backend
unfolding program
empty-Tracks j = tt

abbrev three : List Call
three =
    creates "a"
    ∷ extends "a" (7 ∷ 8 ∷ [])
    ∷ forks "a" (some "b")
    ∷ extends "b" (3 ∷ [])
    ∷ kills "a"
    ∷ []

after_all-Tracks_example :
    Covers
      (lookup "b" (after_all engine three empty_backend).lengths)
      (of_branch (after_all engine three empty_backend).cache "b")
after_all-Tracks_example =
    after_all-Tracks engine of_branch engine-Lawful three empty_backend empty-Tracks "b"

kept_and_real :
    (lookup "b" (after_all engine three empty_backend).lengths ≡ some 3)
    × (lookup "b" (after_all engine three empty_backend).cache ≡ some 2)
unfolding program
kept_and_real = (refl, refl)
