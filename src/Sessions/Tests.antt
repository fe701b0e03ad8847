-- ===== src/Sessions/Tests.antt =====
-- Two sessions: the ids 1 and 2, on the connections 7 and 8.
use cifsd.Base.{
  ℕ, ◌≡◌, refl, Bool, true, ◌||◌, List, [], ◌∷◌, ◌==◌, if◌then◌else◌, arith, All, Bool-cases, inl,
  inr, none, none,
}
use cifsd.Ids.Small.{small, small-IdaLaws}
use cifsd.Sessions.{
  UserSession, SessionTables, smb2, cifsd_session_lookup_slowpath, session_setup, without_previous,
  Memory, cifsd_sessions_deregister,
}
use cifsd.Sessions.Lists.{elem}
use cifsd.Sessions.View.{IsSound, without_conn}
use cifsd.Sessions.Sound.{deregister-IsSound}
use cifsd.Sessions.Login.{IsSetUp, session_setup-IsSetUp}

abbrev two_sessions : ℕ → UserSession
two_sessions a = if a == 0 then record { id = 1; conn = 7 } else record { id = 2; conn = 8 }

abbrev two_lists : ℕ → List ℕ
two_lists c = if c == 7 then 0 ∷ [] else if c == 8 then 1 ∷ [] else []

abbrev server : SessionTables (ℕ → Bool)
server = record {
  session_ida = λ id. (id == 1) || (id == 2);
  sessions_table = 1 ∷ 0 ∷ [];
  sessions = two_lists;
  sess = two_sessions;
  next = 2;
}

server-IsSound : IsSound small server
server-IsSound = record {
  below = (ground arith, (ground arith, tt));
  held = ((refl, ground arith), ((refl, ground arith), tt));
  unique = ((λ e. ground arith, tt), (tt, tt));
  listed = (λ c. ground arith, (λ c. ground arith, tt));
  known = only;
}
  where
    only : (c : ℕ) → All (λ a. elem a (1 ∷ 0 ∷ []) ≡ true) (two_lists c)
    only c = elim (Bool-cases (c == 7)) [
      | inl first ↦ rw first (refl, tt)
      | inr n ↦ elim (Bool-cases (c == 8)) [
        | inl second ↦ rw (n, second) (refl, tt)
        | inr m ↦ rw (n, m) tt
      ]
    ]

deregister-IsSound_example :
    IsSound small (cifsd_sessions_deregister small 7 server)
    × ((x : ℕ)
        → cifsd_session_lookup_slowpath (cifsd_sessions_deregister small 7 server) x
          ≡ without_conn two_sessions 7 (cifsd_session_lookup_slowpath server x))
deregister-IsSound_example = deregister-IsSound small small-IdaLaws server 7 server-IsSound

abbrev enough : Memory
enough = record { session = true; file_table = true; tree_conn_ida = true }

-- A client of connection 8 comes back for the session 1 of connection 7.
session_setup-IsSetUp_example :
    ((x : ℕ)
      → cifsd_session_lookup_slowpath (without_previous small 1 server) x
        ≡ (if x == 1 then none else cifsd_session_lookup_slowpath server x))
    × IsSetUp small (without_previous small 1 server) 8 (session_setup small smb2 enough 1 8 server)
session_setup-IsSetUp_example =
    session_setup-IsSetUp small server smb2 enough 1 8 small-IdaLaws server-IsSound refl
