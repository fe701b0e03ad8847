-- ===== src/Sessions/Login.antt =====
-- What a session setup leaves behind, on every branch.
use mathlib.Core.Path.{subst, fun_ext}
use cifsd.Base.{
  ℕ, suc, ◌≡◌, ◌≢◌, ◌≤◌, refl, ap, sym, ◌∙◌, Bool, true, false, none, some, List, [], ◌∷◌, ◌==◌,
  if◌then◌else◌, arith, All, Bool-cases, inl, inr,
}
use cifsd.Ids.{Ida, IdaLaws, Acquired, acquired, no_id, unfinished}
use cifsd.Ids.Reserved.{Keeps}
use cifsd.Sessions.{
  UserSession, SessionTables, SessionFlag, Memory, Created, created, null, oops, without_session,
  set_at, session_in, cifsd_session_lookup_slowpath, cifsd_session_lookup, cifsd_session_register,
  cifsd_session_destroy, acquire_uid, identified, session_create, registered, session_setup,
  without_previous,
}
use cifsd.Sessions.Lists.{session_in-set_at, session_in-absent}
use cifsd.Sessions.View.{IsSound}
use cifsd.Sessions.Previous.{previous-Leaves}
use cifsd.Sessions.Sound.{All-map, from_elem}
use cifsd.Sessions.Setup.{grown, undone-IsSound, added, added-IsSound, under}
use cifsd.Sessions.Uid.{Given, acquire_uid-Given}

module _ {I : Type 0} (ida : Ida I) where
  -- A setup gives a session with a new id that the lookups find, the connection's too, or it leaves the
  -- lookups as they are; the tables are sound. The kernel does not oops.
  pub IsSetUp : SessionTables I → ℕ → SessionTables I × Created → Type 0
  IsSetUp s conn (s', created a) =
      IsSound ida s'
      × ((x : ℕ)
          → cifsd_session_lookup_slowpath s' x
            ≡ (if x == (s'.sess a).id then some a else cifsd_session_lookup_slowpath s x))
      × (cifsd_session_lookup_slowpath s (s'.sess a).id ≡ none)
      × (cifsd_session_lookup s' conn (s'.sess a).id ≡ some a)
  IsSetUp s conn (s', null) =
      IsSound ida s'
      × ((x : ℕ) → cifsd_session_lookup_slowpath s' x ≡ cifsd_session_lookup_slowpath s x)
  IsSetUp s conn (s', oops) = ⊥

  set_again :
      (f : ℕ → UserSession) (n : ℕ) (a b : UserSession) → set_at (set_at f n a) n b ≡ set_at f n b
  set_again f n a b = fun_ext pointwise
    where
      pointwise : (y : ℕ) → set_at (set_at f n a) n b y ≡ set_at f n b y
      pointwise y = elim (Bool-cases (y == n)) [
        | inl same ↦ rw same refl
        | inr differ ↦ rw differ refl
      ]

  drop_absent : (n : ℕ) (l : List ℕ) → All (λ a. a ≢ n) l → without_session n l ≡ l
  unfolding without_session
  drop_absent n [] h = refl
  drop_absent n (a ∷ l) h = ground (arith, drop_absent n l h.1, h.0)

  module _ (s : SessionTables I) (v : IsSound ida s) where
    below_ne : All (λ a. a ≢ s.next) s.sessions_table
    below_ne =
        from_elem (λ a. a ≢ s.next) s.sessions_table
          (λ b there. ground (arith, under ida s v b there))

    -- An id that was free is not the id of a session.
    free_id :
        (x : ℕ)
        → ida.is_taken s.session_ida x ≡ false
        → All (λ b. (s.sess b).id ≢ x) s.sessions_table
    free_id x free =
        All-map (λ b. (ida.is_taken s.session_ida (s.sess b).id ≡ true) × (1 ≤ (s.sess b).id))
          (λ b. (s.sess b).id ≢ x) s.sessions_table
          (λ b h e. ground (arith, sym h.0 ∙ ap (ida.is_taken s.session_ida) e ∙ free)) v.held

    not_zero : All (λ b. (s.sess b).id ≢ 0) s.sessions_table
    not_zero =
        All-map (λ b. (ida.is_taken s.session_ida (s.sess b).id ≡ true) × (1 ≤ (s.sess b).id))
          (λ b. (s.sess b).id ≢ 0) s.sessions_table (λ b h. ground (arith, h.1)) v.held

    module _ (laws : IdaLaws ida) (conn : ℕ) (t : I) (keeps : Keeps ida s.session_ida t) where
      module _ (new : UserSession)
          (differ : All (λ b. (s.sess b).id ≢ new.id) s.sessions_table) where
        undone-IsSetUp :
            IsSetUp s conn (cifsd_session_destroy ida s.next (grown ida s v t keeps new), null)
        unfolding IsSetUp cifsd_session_lookup_slowpath cifsd_session_destroy grown
        undone-IsSetUp = (
          undone-IsSound ida s v t keeps new laws differ,
          λ x.
              rw (drop_absent s.next s.sessions_table below_ne)
                (session_in-set_at s.sess s.sessions_table s.next x new below_ne),
        )

      added-IsSetUp :
          (x : ℕ)
          → ida.is_taken s.session_ida x ≡ false
          → ida.is_taken t x ≡ true
          → 1 ≤ x
          → IsSetUp s conn
              (added ida s v t keeps (record { id = x; conn = conn }) conn, created s.next)
      unfolding IsSetUp cifsd_session_lookup_slowpath cifsd_session_lookup added session_in
      added-IsSetUp x free taken one = (
        added-IsSound ida s v t keeps x conn laws taken one (free_id x free),
        λ y. rw (self s.next) (
            ap (λ o. if y == x then some s.next else o)
              (session_in-set_at s.sess s.sessions_table s.next y (record { id = x; conn = conn })
                below_ne)),
        rw (self s.next) (session_in-absent s.sess s.sessions_table x (free_id x free)),
        rw (self conn, self s.next, self x) refl,
      )
        where
          self : (n : ℕ) → (n == n) ≡ true
          self n = ground arith

    blank : UserSession
    blank = record { id = 0; conn = 0 }

    module _ (laws : IdaLaws ida) (conn : ℕ) where
      -- The table of sessions after the id and the connection are stored.
      relabelled :
          (x : ℕ)
          → set_at
              (set_at (set_at s.sess s.next blank) s.next (record { id = x; conn = 0 }))
              s.next
              (record (set_at
                (set_at s.sess s.next blank)
                s.next
                (record { id = x; conn = 0 })
                s.next) { conn = conn })
            ≡ set_at s.sess s.next (record { id = x; conn = conn })
      relabelled x =
          ap (λ f. set_at f s.next (record (f s.next) { conn = conn }))
            (set_again s.sess s.next blank (record { id = x; conn = 0 }))
          ∙ set_again s.sess s.next (record { id = x; conn = 0 })
              (record (set_at s.sess s.next (record { id = x; conn = 0 }) s.next) { conn = conn })
          ∙ ap
              (λ b.
                set_at s.sess s.next
                  (record (if b then record { id = x; conn = 0 } else s.sess s.next) {
                    conn = conn;
                  }))
              self
        where
          self : (s.next == s.next) ≡ true
          self = ground arith

      identified-IsSetUp :
          (tree_ida : Bool) (r : Acquired I)
          → Given ida s.session_ida r
          → IsSetUp s conn (
              registered ida conn
                (identified ida tree_ida (record s { sess = set_at s.sess s.next blank }) r))
      unfolding registered identified Given cifsd_session_register blank grown added
      identified-IsSetUp tree_ida unfinished g = absurd g
      identified-IsSetUp tree_ida (no_id t) g = undone-IsSetUp laws conn t g blank not_zero
      identified-IsSetUp false (acquired x t) g =
          subst
            (λ f. IsSetUp s conn (
              cifsd_session_destroy ida s.next
                  (record s { session_ida = t; sess = f; next = suc s.next }),
              null,
            ))
            (sym (set_again s.sess s.next blank (record { id = x; conn = 0 })))
            (undone-IsSetUp laws conn t g.3 (record { id = x; conn = 0 }) (free_id x g.1))
      identified-IsSetUp true (acquired x t) g =
          subst
            (λ f. IsSetUp s conn (
              record s {
                session_ida = t;
                sessions_table = s.next ∷ s.sessions_table;
                sess = f;
                sessions = set_at s.sessions conn (s.next ∷ s.sessions conn);
                next = suc s.next;
              },
              created s.next,
            ))
            (sym (relabelled x)) (added-IsSetUp laws conn t g.3 x g.1 g.2 g.0)

      created-IsSetUp :
          (p : SessionFlag) (m : Memory)
          → m.file_table ≡ true
          → IsSetUp s conn (registered ida conn (session_create ida p m s))
      unfolding session_create registered IsSetUp blank
      created-IsSetUp p m table = elim (Bool-cases m.session) [
        | inl memory ↦
            rw (memory, table)
              (identified-IsSetUp m.tree_conn_ida (acquire_uid ida p s.session_ida)
                (acquire_uid-Given ida laws p s.session_ida))
        | inr no_memory ↦ rw no_memory (v, λ x. refl)
      ]

  -- On sound tables, and with memory for the file table, a session setup without a session first destroys the
  -- session that its PreviousSessionId names, which the lookups lose and no other. Then it gives a
  -- session with a new id that the lookups find, the connection's too, or it leaves the lookups as they
  -- are. Sound tables stay sound, and no half-built session is destroyed.
  pub session_setup-IsSetUp :
      (s : SessionTables I) (p : SessionFlag) (m : Memory) (previous conn : ℕ)
      → IdaLaws ida
      → IsSound ida s
      → m.file_table ≡ true
      → ((x : ℕ)
          → cifsd_session_lookup_slowpath (without_previous ida previous s) x
            ≡ (if x == previous then none else cifsd_session_lookup_slowpath s x))
        × IsSetUp (without_previous ida previous s) conn (session_setup ida p m previous conn s)
  unfolding session_setup
  session_setup-IsSetUp s p m previous conn laws v table =
      let l = previous-Leaves ida laws s v previous in
      (l.1, created-IsSetUp (without_previous ida previous s) l.0 laws conn p m table)
