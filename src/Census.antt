-- ===== src/Census.antt =====
-- The clusters of agentfork/workload/census.py: sessions that follow one another within a window.
-- Times are seconds, and a text is the list of its code points.
pub mod Bursts
pub mod Tests
use agentfork.Base.{
  ℕ, ◌+◌, Bool, true, false, Option, none, some, List, [], ◌∷◌, leb, common, if◌then◌else◌,
}
use agentfork.Base.Int.{ℤ, pos, negsuc}

pub record Session : Type 0 where
  pub created : ℕ
  pub prompt : List ℕ

abbrev pub common_prefix_len : List ℕ → List ℕ → ℕ
common_prefix_len a b = common a b

-- `sorted(sessions, key=lambda s: s["created"])`, which is stable
unfoldable pub insert_session : Session → List Session → List Session
insert_session s [] = s ∷ []
insert_session s (t ∷ ts) = if leb s.created t.created then s ∷ t ∷ ts else t ∷ insert_session s ts

unfoldable pub sort_sessions : List Session → List Session
unfolding insert_session
sort_sessions [] = []
sort_sessions (s ∷ ss) = insert_session s (sort_sessions ss)

-- The body of the loop. The latest cluster comes first, and in it the latest session.
abbrev pub add_session : ℕ → Session → List (List Session) → List (List Session)
add_session window s [] = (s ∷ []) ∷ []
add_session window s ([] ∷ cs) = (s ∷ []) ∷ [] ∷ cs
add_session window s ((t ∷ c) ∷ cs) =
    if leb s.created (t.created + window) then (s ∷ t ∷ c) ∷ cs else (s ∷ []) ∷ (t ∷ c) ∷ cs

unfoldable pub add_sessions : ℕ → List Session → List (List Session) → List (List Session)
add_sessions window [] cs = cs
add_sessions window (s ∷ ss) cs = add_sessions window ss (add_session window s cs)

-- `cluster_bursts`; `none` stands for the `ValueError`
unfoldable pub cluster_bursts : List Session → ℤ → Option (List (List Session))
unfolding sort_sessions add_sessions
cluster_bursts sessions (negsuc n) = none
cluster_bursts sessions (pos window) = some (add_sessions window (sort_sessions sessions) [])
