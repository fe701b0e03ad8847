-- ===== src/Sessions/Sound.antt =====
-- The end of a connection, in the tables of mgmt/user_session.c.
use mathlib.Core.Path.{subst}
use cifsd.Base.{
  ℕ, ◌≡◌, ◌≢◌, ◌≤◌, ◌<◌, refl, ap, sym, ◌∙◌, true, List, [], ◌∷◌, ◌==◌, arith, All, Bool-cases, inl,
  inr,
}
use cifsd.Ids.{Ida, IdaLaws, cifds_release_id}
use cifsd.Sessions.{
  UserSession, SessionTables, without_session, cifsd_session_destroy, destroy_all,
  cifsd_sessions_deregister, cifsd_session_lookup_slowpath,
}
use cifsd.Sessions.Lists.{elem, IsUnique, drop_all, without_session-IsUnique}
use cifsd.Sessions.View.{IsSound, all_elem, destroyed, without_conn, deregister_lookup}

pub All-map : (P Q : ℕ → Type 0) (l : List ℕ) → ((a : ℕ) → P a → Q a) → All P l → All Q l
All-map P Q [] f h = tt
All-map P Q (a ∷ l) f h = (f a h.0, All-map P Q l f h.1)

dropped :
    (P : ℕ → Type 0) (a : ℕ) (l : List ℕ) → All P l → All (λ b. P b × (a ≢ b)) (without_session a l)
unfolding without_session
dropped P a [] h = tt
dropped P a (b ∷ l) h = elim (Bool-cases (b == a)) [
  | inl same ↦ rw same (dropped P a l h.1)
  | inr differ ↦ rw differ ((h.0, ground arith), dropped P a l h.1)
]

-- What is left of a list is not among what is dropped from it.
left_over :
    (P : ℕ → Type 0) (gone l : List ℕ)
    → All P l
    → All (λ b. P b × All (λ a. a ≢ b) gone) (drop_all gone l)
left_over P [] l h = All-map P (λ b. P b × Unit {0}) l (λ b p. (p, tt)) h
left_over P (a ∷ gone) l h =
    All-map (λ b. (P b × (a ≢ b)) × All (λ c. c ≢ b) gone) (λ b. P b × All (λ c. c ≢ b) (a ∷ gone))
      (drop_all gone (without_session a l)) (λ b q. (q.0.0, (q.0.1, q.1)))
      (left_over (λ b. P b × (a ≢ b)) gone (without_session a l) (dropped P a l h))

drop_all-IsUnique :
    (sess : ℕ → UserSession) (gone l : List ℕ) → IsUnique sess l → IsUnique sess (drop_all gone l)
drop_all-IsUnique sess [] l u = u
drop_all-IsUnique sess (a ∷ gone) l u =
    drop_all-IsUnique sess gone (without_session a l) (without_session-IsUnique sess a l u)

pub elem-without_session : (b a : ℕ) (l : List ℕ) → a ≢ b → elem b (without_session a l) ≡ elem b l
unfolding without_session
elem-without_session b a [] n = refl
elem-without_session b a (c ∷ l) n = ground (arith, elem-without_session b a l n)

elem-drop_all :
    (b : ℕ) (gone l : List ℕ) → All (λ a. a ≢ b) gone → elem b (drop_all gone l) ≡ elem b l
elem-drop_all b [] l n = refl
elem-drop_all b (a ∷ gone) l n =
    elem-drop_all b gone (without_session a l) n.1 ∙ elem-without_session b a l n.0

pub different_ids :
    (sess : ℕ → UserSession) (l : List ℕ) (a b : ℕ)
    → IsUnique sess l
    → elem a l ≡ true
    → elem b l ≡ true
    → a ≢ b
    → (sess a).id ≢ (sess b).id
different_ids sess [] a b u ea eb n = absurd (ground arith)
different_ids sess (c ∷ l) a b u ea eb n = elim (Bool-cases (a == c)) [
  | inl same ↦
      let p : c ≡ a = ground arith in
      let q = all_elem (λ x. (sess x).id ≢ (sess c).id) l b u.0 (ground arith) in
      λ e. q (sym e ∙ ap (λ x. (sess x).id) (sym p))
  | inr differ ↦ elim (Bool-cases (b == c)) [
    | inl same ↦
        let p : c ≡ b = ground arith in
        let q = all_elem (λ x. (sess x).id ≢ (sess c).id) l a u.0 (ground arith) in
        λ e. q (e ∙ ap (λ x. (sess x).id) (sym p))
    | inr differ' ↦ different_ids sess l a b u.1 (ground arith) (ground arith) n
  ]
]

pub from_elem : (P : ℕ → Type 0) (l : List ℕ) → ((b : ℕ) → elem b l ≡ true → P b) → All P l
from_elem P [] f = tt
from_elem P (a ∷ l) f = (f a (ground arith), from_elem P l (λ b e. f b (ground (arith, e))))

module _ {I : Type 0} (ida : Ida I) where
  destroyed_sessions :
      (gone : List ℕ) (s : SessionTables I) (c : ℕ)
      → (destroy_all ida gone s).sessions c ≡ drop_all gone (s.sessions c)
  unfolding destroy_all cifsd_session_destroy
  destroyed_sessions [] s c = refl
  destroyed_sessions (a ∷ gone) s c = destroyed_sessions gone (cifsd_session_destroy ida a s) c

  module _ (laws : IdaLaws ida) where
    still_taken :
        (gone : List ℕ) (s : SessionTables I) (x : ℕ)
        → All (λ a. x ≢ (s.sess a).id) gone
        → ida.is_taken (destroy_all ida gone s).session_ida x ≡ ida.is_taken s.session_ida x
    unfolding destroy_all cifsd_session_destroy cifds_release_id
    still_taken [] s x n = refl
    still_taken (a ∷ gone) s x n =
        still_taken gone (cifsd_session_destroy ida a s) x n.1
        ∙ laws.remove_other s.session_ida (s.sess a).id x n.0

    module _ (s : SessionTables I) (gone : List ℕ) (v : IsSound ida s)
        (apart : (b : ℕ)
          → elem b s.sessions_table ≡ true
          → All (λ a. a ≢ b) gone
          → All (λ a. (s.sess b).id ≢ (s.sess a).id) gone) where
      -- A session that stays, with what the table says about it.
      Stays : ℕ → Type 0
      Stays b = (elem b s.sessions_table ≡ true) × All (λ a. a ≢ b) gone

      staying : All Stays (drop_all gone s.sessions_table)
      unfolding Stays
      staying =
          left_over (λ b. elem b s.sessions_table ≡ true) gone s.sessions_table
            (from_elem (λ b. elem b s.sessions_table ≡ true) s.sessions_table (λ b e. e))

      after :
          (P : ℕ → Type 0)
          → ((b : ℕ) → Stays b → P b)
          → All P (destroy_all ida gone s).sessions_table
      after P f =
          subst (All P) (sym (destroyed ida gone s).1)
            (All-map Stays P (drop_all gone s.sessions_table) f staying)

      holds : (P : ℕ → Type 0) → All P s.sessions_table → (b : ℕ) → Stays b → P b
      unfolding Stays
      holds P h b p = all_elem P s.sessions_table b h p.0

      -- The tables stay sound when sessions end whose ids the others do not have.
      pub destroy_all-IsSound : IsSound ida (destroy_all ida gone s)
      unfolding Stays
      destroy_all-IsSound = record {
        below = after (λ a. a < t.next) (λ b p. rw next (holds (λ a. a < s.next) v.below b p));
        held = after Held (λ b p.
            let h =
              holds (λ a. (ida.is_taken s.session_ida (s.sess a).id ≡ true) × (1 ≤ (s.sess a).id))
                v.held b p in
            rw same (still_taken gone s (s.sess b).id (apart b p.0 p.1) ∙ h.0, h.1));
        unique = rw (same, table) (drop_all-IsUnique s.sess gone s.sessions_table v.unique);
        listed =
            after (λ a. (c : ℕ) → elem a (t.sessions c) ≡ (c == (t.sess a).conn))
              (λ b p c.
                rw (same, lists c)
                  (elem-drop_all b gone (s.sessions c) p.1
                    ∙ holds (λ a. (e : ℕ) → elem a (s.sessions e) ≡ (e == (s.sess a).conn)) v.listed
                        b p c));
        known = λ c.
            rw (table, lists c)
              (All-map (λ b. (elem b s.sessions_table ≡ true) × All (λ a. a ≢ b) gone)
                (λ b. elem b (drop_all gone s.sessions_table) ≡ true) (drop_all gone (s.sessions c))
                (λ b q. elem-drop_all b gone s.sessions_table q.1 ∙ q.0)
                (left_over (λ b. elem b s.sessions_table ≡ true) gone (s.sessions c) (v.known c)));
      }
        where
          t : SessionTables I
          t = destroy_all ida gone s

          same : t.sess ≡ s.sess
          same = (destroyed ida gone s).0

          table : t.sessions_table ≡ drop_all gone s.sessions_table
          table = (destroyed ida gone s).1

          next : t.next ≡ s.next
          next = (destroyed ida gone s).2

          lists : (c : ℕ) → t.sessions c ≡ drop_all gone (s.sessions c)
          lists c = destroyed_sessions gone s c

          Held : ℕ → Type 0
          Held a = (ida.is_taken t.session_ida (t.sess a).id ≡ true) × (1 ≤ (t.sess a).id)

    gone-IsSound :
        (s : SessionTables I) (conn : ℕ)
        → IsSound ida s
        → IsSound ida (cifsd_sessions_deregister ida conn s)
    unfolding cifsd_sessions_deregister
    gone-IsSound s conn v = destroy_all-IsSound s (s.sessions conn) v (λ b there n.
        from_elem (λ a. (s.sess b).id ≢ (s.sess a).id) (s.sessions conn)
          (λ a e.
            let q = all_elem (λ c. c ≢ b) (s.sessions conn) a n e in
            different_ids s.sess s.sessions_table b a v.unique there
              (all_elem (λ c. elem c s.sessions_table ≡ true) (s.sessions conn) a (v.known conn) e)
              (λ r. q (sym r))))

    -- When a connection ends, the lookups in sound tables lose its sessions and no other, and the tables stay
    -- sound.
    pub deregister-IsSound :
        (s : SessionTables I) (conn : ℕ)
        → IsSound ida s
        → IsSound ida (cifsd_sessions_deregister ida conn s)
          × ((x : ℕ)
              → cifsd_session_lookup_slowpath (cifsd_sessions_deregister ida conn s) x
                ≡ without_conn s.sess conn (cifsd_session_lookup_slowpath s x))
    deregister-IsSound s conn v = (gone-IsSound s conn v, λ x. deregister_lookup ida s conn x v)
