-- ===== src/Census/Tests.antt =====
-- A run of the clustering, as in tests/test_census.py, and its theorem at concrete sessions.
use agentfork.Base.{ℕ, ◌≡◌, refl, none, some, List, [], ◌∷◌}
use mathlib.Core.List.{Perm}
use agentfork.Base.Int.{pos, negsuc}
use agentfork.Census.{
  Session, insert_session, sort_sessions, add_sessions, cluster_bursts, common_prefix_len,
}
use agentfork.Census.Bursts.{AreBursts, IsOrdered, sessions_of, onto, cluster_bursts_lem}

program : Unit {0}
unfolding insert_session sort_sessions add_sessions cluster_bursts
program = tt

abbrev at_time : ℕ → Session
at_time t = record { created = t; prompt = [] }

abbrev three : List Session
three = at_time 500 ∷ at_time 0 ∷ at_time 60 ∷ []

clusters_three :
    (cluster_bursts three (pos 120)
      ≡ some ((at_time 500 ∷ []) ∷ (at_time 60 ∷ at_time 0 ∷ []) ∷ []))
    × (cluster_bursts three (negsuc 0) ≡ none)
    × (common_prefix_len (1 ∷ 2 ∷ 3 ∷ []) (1 ∷ 2 ∷ 4 ∷ []) ≡ 2)
unfolding program
clusters_three = (refl, refl, refl)

cluster_bursts_lem_example :
    (clusters : List (List Session)) × (cluster_bursts three (pos 120) ≡ some clusters)
    × Perm (sessions_of clusters) three
    × AreBursts 120 clusters
    × (sessions_of clusters ≡ onto (sort_sessions three) [])
    × IsOrdered 0 (sort_sessions three)
cluster_bursts_lem_example = cluster_bursts_lem three 120
