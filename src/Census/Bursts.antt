-- ===== src/Census/Bursts.antt =====
-- What the clusters of agentfork/workload/census.py are.
use agentfork.Base.{
  ℕ, ◌+◌, ◌≤◌, ◌<◌, ◌≡◌, refl, sym, subst, ◌∙◌, ap, inl, inr, some, List, [], ◌∷◌, ◌++◌, leb, arith,
  Bool-cases,
}
use mathlib.Core.List.{Perm, perm_middle, append-nil}
use mathlib.Core.List.Perm
use agentfork.Base.Int.{pos}
use agentfork.Census.{
  Session, add_session, add_sessions, insert_session, sort_sessions, cluster_bursts,
}

-- Each session follows the one before it within the window.
abbrev pub IsClose : ℕ → List Session → Type 0
IsClose window [] = Unit
IsClose window (s ∷ []) = Unit
IsClose window (s ∷ t ∷ c) = (s.created ≤ t.created + window) × IsClose window (t ∷ c)

-- The first session of a cluster, which is its last one here
abbrev pub opening : Session → List Session → Session
opening s [] = s
opening s (t ∷ c) = opening t c

-- A cluster opens later than the window after the one before it.
abbrev pub IsGap : ℕ → List Session → List (List Session) → Type 0
IsGap window [] cs = ⊥
IsGap window (s ∷ c) [] = Unit
IsGap window (s ∷ c) ([] ∷ cs) = ⊥
IsGap window (s ∷ c) ((t ∷ d) ∷ cs) = t.created + window < (opening s c).created

abbrev pub AreBursts : ℕ → List (List Session) → Type 0
AreBursts window [] = Unit
AreBursts window (c ∷ cs) = IsClose window c × IsGap window c cs × AreBursts window cs

-- The sessions of the clusters, the latest first
abbrev pub sessions_of : List (List Session) → List Session
sessions_of [] = []
sessions_of (c ∷ cs) = c ++ sessions_of cs

IsGap-grows :
    (window : ℕ) (s t : Session) (c : List Session) (cs : List (List Session))
    → IsGap window (t ∷ c) cs
    → IsGap window (s ∷ t ∷ c) cs
IsGap-grows window s t c [] h = tt
IsGap-grows window s t c ([] ∷ cs) h = h
IsGap-grows window s t c ((u ∷ d) ∷ cs) h = h

add_session-AreBursts :
    (window : ℕ) (s : Session) (cs : List (List Session))
    → AreBursts window cs
    → AreBursts window (add_session window s cs)
add_session-AreBursts window s [] h = (tt, tt, tt)
add_session-AreBursts window s ([] ∷ cs) (close, gap, rest) = absurd gap
add_session-AreBursts window s ((t ∷ c) ∷ cs) (close, gap, rest) =
    elim (Bool-cases (leb s.created (t.created + window))) [
      | inl near ↦ rw near ((ground (arith, near), close), IsGap-grows window s t c cs gap, rest)
      | inr far ↦ rw far (tt, ground (arith, far), (close, gap, rest))
    ]

sessions_of-add_session :
    (window : ℕ) (s : Session) (cs : List (List Session))
    → sessions_of (add_session window s cs) ≡ s ∷ sessions_of cs
sessions_of-add_session window s [] = refl
sessions_of-add_session window s ([] ∷ cs) = refl
sessions_of-add_session window s ((t ∷ c) ∷ cs) =
    elim (Bool-cases (leb s.created (t.created + window))) [
      | inl near ↦ rw near refl
      | inr far ↦ rw far refl
    ]

-- The list from its end
abbrev pub onto : List Session → List Session → List Session
onto [] acc = acc
onto (s ∷ ss) acc = onto ss (s ∷ acc)

add_sessions-AreBursts :
    (window : ℕ) (ss : List Session) (cs : List (List Session))
    → AreBursts window cs
    → AreBursts window (add_sessions window ss cs)
unfolding add_sessions
add_sessions-AreBursts window [] cs h = h
add_sessions-AreBursts window (s ∷ ss) cs h =
    add_sessions-AreBursts window ss (add_session window s cs) (add_session-AreBursts window s cs h)

sessions_of-add_sessions :
    (window : ℕ) (ss : List Session) (cs : List (List Session))
    → sessions_of (add_sessions window ss cs) ≡ onto ss (sessions_of cs)
unfolding add_sessions
sessions_of-add_sessions window [] cs = refl
sessions_of-add_sessions window (s ∷ ss) cs =
    sessions_of-add_sessions window ss (add_session window s cs)
    ∙ ap (onto ss) (sessions_of-add_session window s cs)

-- The sessions are in the order of their times, from a bound on.
abbrev pub IsOrdered : ℕ → List Session → Type 0
IsOrdered bound [] = Unit
IsOrdered bound (s ∷ ss) = (bound ≤ s.created) × IsOrdered s.created ss

insert_session-IsOrdered :
    (bound : ℕ) (s : Session) (ss : List Session)
    → bound ≤ s.created
    → IsOrdered bound ss
    → IsOrdered bound (insert_session s ss)
unfolding insert_session
insert_session-IsOrdered bound s [] b h = (b, tt)
insert_session-IsOrdered bound s (t ∷ ts) b h = elim (Bool-cases (leb s.created t.created)) [
  | inl first ↦ rw first (b, (ground (arith, first), h.1))
  | inr later ↦ rw later (h.0, insert_session-IsOrdered t.created s ts (ground (arith, later)) h.1)
]

sort_sessions-IsOrdered : (ss : List Session) → IsOrdered 0 (sort_sessions ss)
unfolding sort_sessions
sort_sessions-IsOrdered [] = tt
sort_sessions-IsOrdered (s ∷ ss) =
    insert_session-IsOrdered 0 s (sort_sessions ss) (omega arith) (sort_sessions-IsOrdered ss)

insert_session-Perm : (s : Session) (ss : List Session) → Perm (insert_session s ss) (s ∷ ss)
unfolding insert_session
insert_session-Perm s [] = Perm.refl (s ∷ [])
insert_session-Perm s (t ∷ ts) = elim (Bool-cases (leb s.created t.created)) [
  | inl first ↦ rw first (Perm.refl (s ∷ t ∷ ts))
  | inr later ↦ rw later (Perm.trans (Perm.cons t (insert_session-Perm s ts)) (Perm.swap s t ts))
]

sort_sessions-Perm : (ss : List Session) → Perm (sort_sessions ss) ss
unfolding sort_sessions
sort_sessions-Perm [] = Perm.refl []
sort_sessions-Perm (s ∷ ss) =
    Perm.trans (insert_session-Perm s (sort_sessions ss)) (Perm.cons s (sort_sessions-Perm ss))

onto-Perm : (ss acc : List Session) → Perm (onto ss acc) (ss ++ acc)
onto-Perm [] acc = Perm.refl acc
onto-Perm (s ∷ ss) acc = Perm.trans (onto-Perm ss (s ∷ acc)) (perm_middle ss acc)

-- For a window that is not negative the sessions are put into clusters: the sessions of these are
-- the given ones, each as often as it was given, in the order of their times, each session of a
-- cluster follows the one before it within the window, and a cluster opens later than the window
-- after the end of the one before it.
pub cluster_bursts_lem :
    (sessions : List Session) (window : ℕ)
    → (clusters : List (List Session)) × (cluster_bursts sessions (pos window) ≡ some clusters)
      × Perm (sessions_of clusters) sessions
      × AreBursts window clusters
      × (sessions_of clusters ≡ onto (sort_sessions sessions) [])
      × IsOrdered 0 (sort_sessions sessions)
unfolding cluster_bursts
cluster_bursts_lem sessions window =
    let sorted = sort_sessions sessions in
    let all = sessions_of-add_sessions window sorted [] in
    (
      add_sessions window sorted [],
      refl,
      subst (λ l. Perm l sessions) (sym all)
          (Perm.trans (onto-Perm sorted [])
            (subst (λ l. Perm l sessions) (sym (append-nil sorted)) (sort_sessions-Perm sessions))),
      add_sessions-AreBursts window sorted [] tt,
      all,
      sort_sessions-IsOrdered sessions,
    )
