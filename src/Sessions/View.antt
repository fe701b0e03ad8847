-- ===== src/Sessions/View.antt =====
-- The sessions that a lookup finds, and the end of a connection: mgmt/user_session.c.
use mathlib.Core.Path.{subst}
use cifsd.Base.{
  ℕ, ◌≡◌, ◌≤◌, ◌<◌, refl, ap, ◌∙◌, true, Option, none, some, List, [], ◌∷◌, ◌==◌, if◌then◌else◌,
  arith, All, Bool-cases, Option-cases, inl, inr,
}
use cifsd.Ids.{Ida}
use cifsd.Sessions.{
  UserSession, SessionTables, without_session, session_in, cifsd_session_lookup_slowpath,
  cifsd_session_destroy, destroy_all, cifsd_sessions_deregister,
}
use cifsd.Sessions.Lists.{
  elem, IsUnique, keep, drop_all, session_in-all, session_in-without_session,
  without_session-IsUnique,
}

module _ {I : Type 0} (ida : Ida I) where
  -- The sessions in the table are at known addresses and hold different ids from 1 on; a session is in
  -- the list of its connection and in no other, and the lists have only sessions of the table.
  pub record IsSound (s : SessionTables I) : Type 0 where
    pub below : All (λ a. a < s.next) s.sessions_table
    pub held :
        All
          (λ a. (ida.is_taken s.session_ida (s.sess a).id ≡ true) × (1 ≤ (s.sess a).id))
          s.sessions_table
    pub unique : IsUnique s.sess s.sessions_table
    pub listed :
        All (λ a. (c : ℕ) → elem a (s.sessions c) ≡ (c == (s.sess a).conn)) s.sessions_table
    pub known : (c : ℕ) → All (λ a. elem a s.sessions_table ≡ true) (s.sessions c)

-- What a lookup gives if the sessions of a connection are not there.
abbrev pub without_conn : (ℕ → UserSession) → ℕ → Option ℕ → Option ℕ
without_conn sess conn none = none
without_conn sess conn (some a) = if conn == (sess a).conn then none else some a

pub all_elem : (P : ℕ → Type 0) (l : List ℕ) (a : ℕ) → All P l → elem a l ≡ true → P a
all_elem P [] a h e = absurd (ground arith)
all_elem P (b ∷ l) a h e = elim (Bool-cases (a == b)) [
  | inl same ↦ let p : b ≡ a = ground arith in subst P p h.0
  | inr differ ↦ all_elem P l a h.1 (ground arith)
]

keep-keep : (a : ℕ) (gone : List ℕ) (o : Option ℕ) → keep gone (keep (a ∷ []) o) ≡ keep (a ∷ gone) o
keep-keep a gone none = refl
keep-keep a gone (some b) = ground arith

session_in-drop_all :
    (sess : ℕ → UserSession) (gone l : List ℕ) (x : ℕ)
    → IsUnique sess l
    → session_in sess (drop_all gone l) x ≡ keep gone (session_in sess l x)
session_in-drop_all sess [] l x u = nothing (session_in sess l x)
  where
    nothing : (o : Option ℕ) → o ≡ keep [] o
    nothing none = refl
    nothing (some b) = refl
session_in-drop_all sess (a ∷ gone) l x u =
    session_in-drop_all sess gone (without_session a l) x (without_session-IsUnique sess a l u)
    ∙ ap (keep gone) (session_in-without_session sess a l x u)
    ∙ keep-keep a gone (session_in sess l x)

module _ {I : Type 0} (ida : Ida I) where
  pub destroyed :
      (gone : List ℕ) (s : SessionTables I)
      → ((destroy_all ida gone s).sess ≡ s.sess)
        × ((destroy_all ida gone s).sessions_table ≡ drop_all gone s.sessions_table)
        × ((destroy_all ida gone s).next ≡ s.next)
  unfolding destroy_all cifsd_session_destroy
  destroyed [] s = (refl, refl, refl)
  destroyed (a ∷ gone) s = destroyed gone (cifsd_session_destroy ida a s)

  found_cases :
      (s : SessionTables I) (conn x : ℕ)
      → IsSound ida s
      → keep (s.sessions conn) (cifsd_session_lookup_slowpath s x)
        ≡ without_conn s.sess conn (cifsd_session_lookup_slowpath s x)
  unfolding cifsd_session_lookup_slowpath
  found_cases s conn x v = elim (Option-cases (session_in s.sess s.sessions_table x)) [
    | inl e ↦ rw e refl
    | inr (a, e) ↦
        let there = (session_in-all s.sess s.sessions_table x a e).1 in
        let l =
          all_elem (λ b. (c : ℕ) → elem b (s.sessions c) ≡ (c == (s.sess b).conn)) s.sessions_table
            a v.listed there conn in
        rw (e, l) refl
  ]

  pub deregister_lookup :
      (s : SessionTables I) (conn x : ℕ)
      → IsSound ida s
      → cifsd_session_lookup_slowpath (cifsd_sessions_deregister ida conn s) x
        ≡ without_conn s.sess conn (cifsd_session_lookup_slowpath s x)
  unfolding cifsd_session_lookup_slowpath cifsd_sessions_deregister
  deregister_lookup s conn x v =
      let (same, dropped, _) = destroyed (s.sessions conn) s in
      rw (same, dropped)
        (session_in-drop_all s.sess (s.sessions conn) s.sessions_table x v.unique
          ∙ found_cases s conn x v)
