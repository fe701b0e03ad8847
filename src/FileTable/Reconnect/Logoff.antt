-- ===== src/FileTable/Reconnect/Logoff.antt =====
-- cifsd_close_session_fds of vfs_cache.c keeps the opens that can come back, and no other.
use mathlib.Core.Path.{subst}
use cifsd.Base.{
  ℕ, ◌≡◌, ◌≢◌, refl, sym, ap, ◌∙◌, inl, inr, Bool, true, false, some, List, [], ◌∷◌, arith, All,
}
use cifsd.FileTable.{Idr, IdrLaws}
use cifsd.FileTable.Reconnect.{
  OpenTables, is_reconnectable, session_fd_check, close_unless, close_file_table_ids,
  cifsd_close_session_fds,
}
use cifsd.FileTable.Reconnect.Turn.{
  Distinct, leads, IsRegistered, turn, turn_other-IsUntouched, In, Settled, carried, turn-Settled,
  turn_pid,
}

module _ {I : Type 0} (idr : Idr I) (laws : IdrLaws idr) where
  -- The state behind the loop, whatever the count is.
  after : OpenTables I → List ℕ → ℕ → OpenTables I
  after s opens num = (close_file_table_ids idr session_fd_check opens s num).0

  abbrev pub Known : OpenTables I → List ℕ → Type 0
  Known s opens = All (IsRegistered idr s) opens

  either_state :
      (s : OpenTables I) (skip : Bool) (c num : ℕ)
      → (close_unless idr (s, skip) c num).0 ≡ (close_unless idr (s, skip) c 0).0
  unfolding close_unless
  either_state s true c num = refl
  either_state s false c num = refl

  turn_state :
      (s : OpenTables I) (c num : ℕ)
      → (close_unless idr (session_fd_check s c) c num).0 ≡ turn idr s c
  unfolding turn
  turn_state s c num = either_state (session_fd_check s c).0 (session_fd_check s c).1 c num

  registered_leads :
      (s : OpenTables I) (a c : ℕ) → a ≢ c → IsRegistered idr s a → leads idr s a ≢ some c
  unfolding leads IsRegistered
  registered_leads s a c n r e = ground (arith, r)

  leads-Settled :
      (k : Bool) (s : OpenTables I) (a c : ℕ) → a ≢ c → Settled idr k s a → leads idr s a ≢ some c
  unfolding Settled
  leads-Settled true s a c n p e = registered_leads s a c n p.kept e
  leads-Settled false s a c n p e = ground (arith, p.unknown)

  still-IsRegistered :
      (s : OpenTables I) (c a : ℕ)
      → c ≢ a
      → IsRegistered idr s c
      → IsRegistered idr s a
      → IsRegistered idr (turn idr s c) a
  unfolding IsRegistered
  still-IsRegistered s c a n rc ra h =
      let n' : a ≢ c = λ e. n (sym e) in
      let u = turn_other-IsUntouched idr laws s c a n' rc (registered_leads s a c n' ra) in
      u.same_lead ∙ ra (rw (← u.same_file) h)

  In-IsRegistered :
      (s : OpenTables I) (a : ℕ) (opens : List ℕ)
      → Known s opens
      → In a opens
      → IsRegistered idr s a
  In-IsRegistered s a [] r m = absurd m
  In-IsRegistered s a (b ∷ rest) r (inl e) = subst (IsRegistered idr s) (sym e) r.0
  In-IsRegistered s a (b ∷ rest) r (inr m) = In-IsRegistered s a rest r.1 m

  still-Known :
      (s : OpenTables I) (c : ℕ) (rest : List ℕ)
      → IsRegistered idr s c
      → All (λ b. c ≢ b) rest
      → Known s rest
      → Known (turn idr s c) rest
  still-Known s c [] rc n r = tt
  still-Known s c (b ∷ rest) rc n r =
      (still-IsRegistered s c b n.0 rc r.0, still-Known s c rest rc n.1 r.1)

  -- A settled open, which no later turn is for.
  rest-Settled :
      (k : Bool) (rest : List ℕ) (s : OpenTables I) (num a : ℕ)
      → Settled idr k s a
      → Known s rest
      → Distinct rest
      → All (λ b. a ≢ b) rest
      → Settled idr k (after s rest num) a
  unfolding after close_file_table_ids
  rest-Settled k [] s num a h r d n = h
  rest-Settled k (c ∷ rest) s num a h r d n =
      let u = turn_other-IsUntouched idr laws s c a n.0 r.0 (leads-Settled k s a c n.0 h) in
      let t : OpenTables I = (close_unless idr (session_fd_check s c) c num).0 in
      let e : turn idr s c ≡ t = sym (turn_state s c num) in
      rest-Settled k rest t (close_unless idr (session_fd_check s c) c num).1 a
        (subst (λ x. Settled idr k x a) e (carried idr k s (turn idr s c) a u h))
        (subst (λ x. Known x rest) e (still-Known s c rest r.0 d.0 r.1)) d.1 n.1

  other-In : (c a : ℕ) (rest : List ℕ) → All (λ b. c ≢ b) rest → In a rest → a ≢ c
  other-In c a [] n m f = absurd m
  other-In c a (b ∷ rest) n (inl e) f = n.0 (sym f ∙ e)
  other-In c a (b ∷ rest) n (inr m) f = other-In c a rest n.1 m f

  at-Settled :
      (opens : List ℕ) (s : OpenTables I) (num a : ℕ)
      → Known s opens
      → Distinct opens
      → In a opens
      → Settled idr (is_reconnectable (s.opens a)) (after s opens num) a
  unfolding after close_file_table_ids
  at-Settled [] s num a r d m = absurd m
  at-Settled (c ∷ rest) s num a r d (inl e) =
      let r' : IsRegistered idr s a = subst (IsRegistered idr s) (sym e) r.0 in
      let h = turn-Settled idr s a laws r' in
      let t : OpenTables I = (close_unless idr (session_fd_check s c) c num).0 in
      let k : turn idr s a ≡ t = ap (turn idr s) e ∙ sym (turn_state s c num) in
      let same : turn idr s c ≡ t = sym (turn_state s c num) in
      rest-Settled (is_reconnectable (s.opens a)) rest t
        (close_unless idr (session_fd_check s c) c num).1 a
        (subst (λ x. Settled idr (is_reconnectable (s.opens a)) x a) k h)
        (subst (λ x. Known x rest) same (still-Known s c rest r.0 d.0 r.1)) d.1
        (subst (λ x. All (λ b. x ≢ b) rest) (sym e) d.0)
  at-Settled (c ∷ rest) s num a r d (inr m) =
      let t : OpenTables I = (close_unless idr (session_fd_check s c) c num).0 in
      let same : turn idr s c ≡ t = sym (turn_state s c num) in
      let n = other-In c a rest d.0 m in
      let ra = In-IsRegistered s a rest r.1 m in
      let u = turn_other-IsUntouched idr laws s c a n r.0 (registered_leads s a c n ra) in
      let o : t.opens a ≡ s.opens a = subst (λ x. x.opens a ≡ s.opens a) same u.same_open in
      subst
        (λ x.
          Settled idr (is_reconnectable x)
            (after t rest (close_unless idr (session_fd_check s c) c num).1) a)
        o
        (at-Settled rest t (close_unless idr (session_fd_check s c) c num).1 a
          (subst (λ x. Known x rest) same (still-Known s c rest r.0 d.0 r.1)) d.1 m)

  rest_pid :
      (opens : List ℕ) (s : OpenTables I) (num a : ℕ)
      → ((after s opens num).tables.files a).persistent_id ≡ (s.tables.files a).persistent_id
  unfolding after close_file_table_ids
  rest_pid [] s num a = refl
  rest_pid (c ∷ rest) s num a =
      let t : OpenTables I = (close_unless idr (session_fd_check s c) c num).0 in
      rest_pid rest t (close_unless idr (session_fd_check s c) c num).1 a
      ∙ subst (λ x. (x.tables.files a).persistent_id ≡ (s.tables.files a).persistent_id)
          (sym (turn_state s c num)) (turn_pid idr s c a)

  module _ (listing : I → List ℕ) where
    -- A logoff settles every open of the session, where the opens differ and the persistent id of each,
    -- if it has one, leads to it: each keeps its persistent id. An open that can come back loses its
    -- connection, its tree connect and its volatile id, and its persistent id still leads to it; the
    -- persistent id of any other open leads nowhere.
    pub logoff-Settled :
        (s : OpenTables I) (count a : ℕ)
        → Known s (listing s.tables.file_table)
        → Distinct (listing s.tables.file_table)
        → In a (listing s.tables.file_table)
        → let s' = (cifsd_close_session_fds idr listing s count).0 in
          Settled idr (is_reconnectable (s.opens a)) s' a
          × ((s'.tables.files a).persistent_id ≡ (s.tables.files a).persistent_id)
    unfolding cifsd_close_session_fds after
    logoff-Settled s count a r d m = (
      at-Settled (listing s.tables.file_table) s 0 a r d m,
      rest_pid (listing s.tables.file_table) s 0 a,
    )
