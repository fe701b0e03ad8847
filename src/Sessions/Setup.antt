-- ===== src/Sessions/Setup.antt =====
-- A session setup without a session: __session_create and cifsd_session_register of
-- mgmt/user_session.c.
use cifsd.Base.{
  ℕ, suc, ◌≡◌, ◌≢◌, ◌≤◌, ◌<◌, refl, ◌∙◌, true, false, List, [], ◌∷◌, ◌==◌, arith, All, Bool-cases,
  inl, inr,
}
use cifsd.Ids.{Ida, IdaLaws}
use cifsd.Ids.Reserved.{Keeps}
use cifsd.Sessions.{UserSession, SessionTables, set_at, cifsd_session_destroy, destroy_all}
use cifsd.Sessions.Lists.{elem, IsUnique}
use cifsd.Sessions.View.{IsSound, all_elem}
use cifsd.Sessions.Sound.{from_elem, destroy_all-IsSound}

same_ids :
    (f g : ℕ → UserSession) (l : List ℕ)
    → ((b : ℕ) → elem b l ≡ true → f b ≡ g b)
    → IsUnique g l
    → IsUnique f l
same_ids f g [] e u = tt
same_ids f g (a ∷ l) e u = (
  from_elem (λ b. (f b).id ≢ (f a).id) l
      (λ b there.
        let n = all_elem (λ c. (g c).id ≢ (g a).id) l b u.0 there in
        rw (e b (ground (arith, there)), e a (ground arith)) n),
  same_ids f g l (λ b there. e b (ground (arith, there))) u.1,
)

module _ {I : Type 0} (ida : Ida I) where
  module _ (s : SessionTables I) (v : IsSound ida s) where
    pub under : (b : ℕ) → elem b s.sessions_table ≡ true → b < s.next
    under b there = all_elem (λ a. a < s.next) s.sessions_table b v.below there

    other : (b : ℕ) → elem b s.sessions_table ≡ true → (b == s.next) ≡ false
    other b there = ground (arith, under b there)

    unlisted : (c : ℕ) → elem s.next (s.sessions c) ≡ false
    unlisted c = elim (Bool-cases (elem s.next (s.sessions c))) [
      | inl e ↦
          let there =
            all_elem (λ a. elem a s.sessions_table ≡ true) (s.sessions c) s.next (v.known c) e in
          absurd (ground (arith, under s.next there))
      | inr e ↦ e
    ]

    module _ (t : I) (keeps : Keeps ida s.session_ida t) (new : UserSession) where
      unfoldable pub grown : SessionTables I
      grown = record s { session_ida = t; sess = set_at s.sess s.next new; next = suc s.next }

      old_sess : (b : ℕ) → elem b s.sessions_table ≡ true → set_at s.sess s.next new b ≡ s.sess b
      old_sess b there = rw (other b there) refl

      pub grown-IsSound : IsSound ida grown
      unfolding grown Keeps
      grown-IsSound = record {
        below =
            from_elem (λ a. a < suc s.next) s.sessions_table
              (λ b there. ground (arith, under b there));
        held =
            from_elem
              (λ a.
                (ida.is_taken t (set_at s.sess s.next new a).id ≡ true)
                × (1 ≤ (set_at s.sess s.next new a).id))
              s.sessions_table
              (λ b there.
                let h =
                  all_elem
                    (λ a. (ida.is_taken s.session_ida (s.sess a).id ≡ true) × (1 ≤ (s.sess a).id))
                    s.sessions_table b v.held there in
                rw (old_sess b there) (keeps (s.sess b).id h.0, h.1));
        unique = same_ids (set_at s.sess s.next new) s.sess s.sessions_table old_sess v.unique;
        listed =
            from_elem
              (λ a. (c : ℕ) → elem a (s.sessions c) ≡ (c == (set_at s.sess s.next new a).conn))
              s.sessions_table
              (λ b there c. rw (old_sess b there) (
                all_elem (λ a. (e : ℕ) → elem a (s.sessions e) ≡ (e == (s.sess a).conn))
                  s.sessions_table b v.listed there c));
        known = v.known;
      }

      -- The new session is destroyed again.
      pub undone-IsSound :
          IdaLaws ida
          → All (λ b. (s.sess b).id ≢ new.id) s.sessions_table
          → IsSound ida (cifsd_session_destroy ida s.next grown)
      unfolding grown destroy_all
      undone-IsSound laws differ =
          destroy_all-IsSound ida laws grown (s.next ∷ []) grown-IsSound (λ b there n. (
            rw (old_sess b there, self)
                (all_elem (λ a. (s.sess a).id ≢ new.id) s.sessions_table b differ there),
            tt,
          ))
        where
          self : (s.next == s.next) ≡ true
          self = ground arith

      unfoldable pub added : ℕ → SessionTables I
      added conn = record s {
        session_ida = t;
        sessions_table = s.next ∷ s.sessions_table;
        sess = set_at s.sess s.next (record { id = new.id; conn = conn });
        sessions = set_at s.sessions conn (s.next ∷ s.sessions conn);
        next = suc s.next;
      }

  module _ (s : SessionTables I) (v : IsSound ida s) (t : I) (keeps : Keeps ida s.session_ida t)
      (x conn : ℕ) where
    abbrev pub new : UserSession
    new = record { id = x; conn = conn }

    after : SessionTables I
    after = grown s v t keeps new

    sound : IsSound ida after
    unfolding after grown
    sound = grown-IsSound s v t keeps new

    listed_new :
        (c : ℕ) → elem s.next (set_at s.sessions conn (s.next ∷ s.sessions conn) c) ≡ (c == conn)
    listed_new c = elim (Bool-cases (c == conn)) [
      | inl same ↦ rw same (ground arith)
      | inr differ ↦ rw differ (unlisted s v c)
    ]

    listed_old :
        (b c : ℕ)
        → elem b s.sessions_table ≡ true
        → elem b (set_at s.sessions conn (s.next ∷ s.sessions conn) c) ≡ elem b (s.sessions c)
    listed_old b c there = elim (Bool-cases (c == conn)) [
      | inl same ↦ let p : c ≡ conn = ground arith in rw (same, other s v b there, p) refl
      | inr differ ↦ rw differ refl
    ]

    known_new :
        (c : ℕ)
        → All
            (λ b. elem b (s.next ∷ s.sessions_table) ≡ true)
            (set_at s.sessions conn (s.next ∷ s.sessions conn) c)
    known_new c =
        from_elem (λ b. elem b (s.next ∷ s.sessions_table) ≡ true)
          (set_at s.sessions conn (s.next ∷ s.sessions conn) c)
          (λ b e. elim (Bool-cases (b == s.next)) [
            | inl same ↦ rw same refl
            | inr differ ↦ old b differ e
          ])
      where
        in_old :
            (b d : ℕ) → elem b (s.sessions d) ≡ true → elem b (s.next ∷ s.sessions_table) ≡ true
        in_old b d e =
            let there =
              all_elem (λ a. elem a s.sessions_table ≡ true) (s.sessions d) b (v.known d) e in
            ground (arith, there)

        old :
            (b : ℕ)
            → (b == s.next) ≡ false
            → elem b (set_at s.sessions conn (s.next ∷ s.sessions conn) c) ≡ true
            → elem b (s.next ∷ s.sessions_table) ≡ true
        old b differ e = elim (Bool-cases (c == conn)) [
          | inl same ↦ let e' : elem b (s.sessions conn) ≡ true = ground arith in in_old b conn e'
          | inr differ' ↦ let e' : elem b (s.sessions c) ≡ true = ground arith in in_old b c e'
        ]

    pub added-IsSound :
        IdaLaws ida
        → ida.is_taken t x ≡ true
        → 1 ≤ x
        → All (λ b. (s.sess b).id ≢ x) s.sessions_table
        → IsSound ida (added s v t keeps new conn)
    unfolding added after grown
    added-IsSound laws taken one differ = record {
      below = (ground arith, sound.below);
      held = (rw self (taken, one), sound.held);
      unique = (
        from_elem (λ b. (set_at s.sess s.next new b).id ≢ (set_at s.sess s.next new s.next).id)
            s.sessions_table
            (λ b there.
              rw (old_sess s v t keeps new b there, self)
                (all_elem (λ a. (s.sess a).id ≢ x) s.sessions_table b differ there)),
        sound.unique,
      );
      listed = (
        λ c. rw self (listed_new c),
        from_elem
            (λ a.
              (c : ℕ)
              → elem a (set_at s.sessions conn (s.next ∷ s.sessions conn) c)
                ≡ (c == (set_at s.sess s.next new a).conn))
            s.sessions_table
            (λ b there c.
              listed_old b c there
              ∙ all_elem
                  (λ a. (e : ℕ) → elem a (s.sessions e) ≡ (e == (set_at s.sess s.next new a).conn))
                  s.sessions_table b sound.listed there c),
      );
      known = known_new;
    }
      where
        self : (s.next == s.next) ≡ true
        self = ground arith
