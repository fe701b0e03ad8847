-- ===== src/FileTable/Reconnect/Turn.antt =====
-- One turn of the loop that ends the opens of a session, for its own open and for another one.
use cifsd.Base.{
  ℕ, ◌≡◌, ◌≢◌, ◌⊎◌, refl, ap, ◌∙◌, inl, inr, Bool, true, false, Option, none, some, List, [], ◌∷◌,
  arith, All, Bool-cases, if◌then◌else◌,
}
use cifsd.FileTable.{
  Idr, IdrLaws, no_fid, has_file_id, update, close_file, remove_durable_fd, remove_fd, unlist,
}
use cifsd.FileTable.Reconnect.{
  OpenTables, is_reconnectable, set_conn, part, session_fd_check, close_one, close_unless,
}

abbrev pub Distinct : List ℕ → Type 0
Distinct [] = Unit {0}
Distinct (a ∷ rest) = All (λ b. a ≢ b) rest × Distinct rest

module _ {I : Type 0} (idr : Idr I) where
  -- Where the persistent id of an open leads, if it has one.
  unfoldable pub leads : OpenTables I → ℕ → Option ℕ
  leads s a =
      if has_file_id (s.tables.files a).persistent_id
      then idr.idr_find s.tables.global_ft (s.tables.files a).persistent_id
      else none

  -- The persistent id of an open, if it has one, leads to it.
  unfoldable pub IsRegistered : OpenTables I → ℕ → Type 0
  IsRegistered s a = has_file_id (s.tables.files a).persistent_id ≡ true → leads s a ≡ some a

  -- An open that waits for a client to come back, which its persistent id leads to.
  pub record IsParted (s : OpenTables I) (a : ℕ) : Type 0 where
    pub no_conn : (s.opens a).conn ≡ 0
    pub no_tcon : (s.tables.files a).tcon ≡ 0
    pub no_id : (s.tables.files a).volatile_id ≡ no_fid
    pub kept : IsRegistered s a

  -- One turn of the loop at a logoff.
  unfoldable pub turn : OpenTables I → ℕ → OpenTables I
  turn s c = (close_unless idr (session_fd_check s c) c 0).0

  checked : OpenTables I → ℕ → Bool → OpenTables I × Bool
  checked s c b = if b then (part s c, true) else (s, false)

  turn_parts :
      (s : OpenTables I) (c : ℕ) → is_reconnectable (s.opens c) ≡ true → turn s c ≡ part s c
  unfolding turn close_unless session_fd_check checked
  turn_parts s c h = ap (λ b. (close_unless idr (checked s c b) c 0).0) h

  turn_closes :
      (s : OpenTables I) (c : ℕ)
      → is_reconnectable (s.opens c) ≡ false
      → turn s c ≡ close_one idr s c
  unfolding turn close_unless session_fd_check checked
  turn_closes s c h = ap (λ b. (close_unless idr (checked s c b) c 0).0) h

  close_global :
      (s : OpenTables I) (c : ℕ)
      → (close_one idr s c).tables.global_ft ≡ (
          if has_file_id (s.tables.files c).persistent_id
          then idr.idr_remove s.tables.global_ft (s.tables.files c).persistent_id
          else s.tables.global_ft)
  unfolding close_one close_file remove_fd remove_durable_fd
  close_global s c = ground arith

  closed_pid :
      (s : OpenTables I) (c : ℕ)
      → ((close_one idr s c).tables.files c).persistent_id ≡ (s.tables.files c).persistent_id
  unfolding close_one close_file remove_fd remove_durable_fd update unlist
  closed_pid s c = ground arith

  -- What a turn leaves of another open.
  pub record IsUntouched (s t : OpenTables I) (a : ℕ) : Type 0 where
    pub same_file : t.tables.files a ≡ s.tables.files a
    pub same_open : t.opens a ≡ s.opens a
    pub same_lead : leads t a ≡ leads s a

module _ {I : Type 0} (idr : Idr I) (laws : IdrLaws idr) (s : OpenTables I) (c a : ℕ)
    (other : a ≢ c) where
  close_other_files : (close_one idr s c).tables.files a ≡ s.tables.files a
  unfolding close_one close_file remove_fd remove_durable_fd update
  close_other_files = ground arith

  unopened : (close_one idr s c).opens a ≡ s.opens a
  unfolding close_one
  unopened = refl

  close_other_leads :
      IsRegistered idr s c
      → leads idr s a ≢ some c
      → leads idr (close_one idr s c) a ≡ leads idr s a
  unfolding IsRegistered leads
  close_other_leads rc n = ground (
    arith,
    close_other_files,
    close_global idr s c,
    rc,
    laws.find_remove_other s.tables.global_ft (s.tables.files c).persistent_id
        (s.tables.files a).persistent_id,
  )

  part_other-IsUntouched : IsUntouched idr s (part s c) a
  unfolding part update set_conn leads
  part_other-IsUntouched = record {
    same_file = ground arith;
    same_open = ground arith;
    same_lead = ground arith;
  }

  pub turn_other-IsUntouched :
      IsRegistered idr s c → leads idr s a ≢ some c → IsUntouched idr s (turn idr s c) a
  turn_other-IsUntouched rc n = elim (Bool-cases (is_reconnectable (s.opens c))) [
    | inl parts ↦ rw (turn_parts idr s c parts) part_other-IsUntouched
    | inr closes ↦ rw (turn_closes idr s c closes) (record {
      same_file = close_other_files;
      same_open = unopened;
      same_lead = close_other_leads rc n;
    })
  ]

-- Whether an open is among others.
abbrev pub In : ℕ → List ℕ → Type 0
In a [] = ⊥
In a (b ∷ rest) = (a ≡ b) ⊎ In a rest

-- An open that is gone: its persistent id, if it has one, leads nowhere.
module _ {I : Type 0} (idr : Idr I) where
  pub record IsShut (s : OpenTables I) (a : ℕ) : Type 0 where
    pub unknown : leads idr s a ≡ none

  -- What a logoff does to an open.
  unfoldable pub Settled : Bool → OpenTables I → ℕ → Type 0
  Settled true s a = IsParted idr s a
  Settled false s a = IsShut s a

  pub carried :
      (k : Bool) (s t : OpenTables I) (a : ℕ)
      → IsUntouched idr s t a
      → Settled k s a
      → Settled k t a
  unfolding Settled IsRegistered
  carried true s t a u p = record {
    no_conn = ap (λ o. o.conn) u.same_open ∙ p.no_conn;
    no_tcon = ap (λ f. f.tcon) u.same_file ∙ p.no_tcon;
    no_id = ap (λ f. f.volatile_id) u.same_file ∙ p.no_id;
    kept = λ h. u.same_lead ∙ p.kept (rw (← u.same_file) h);
  }
  carried false s t a u p = record { unknown = u.same_lead ∙ p.unknown }

  part-IsParted : (s : OpenTables I) (a : ℕ) → IsRegistered idr s a → IsParted idr (part s a) a
  unfolding part IsRegistered leads update set_conn
  part-IsParted s a r = record {
    no_conn = ground arith;
    no_tcon = ground arith;
    no_id = ground arith;
    kept = λ h. ground (arith, r);
  }

  close-IsShut : (s : OpenTables I) (a : ℕ) → IdrLaws idr → IsShut (close_one idr s a) a
  unfolding leads
  close-IsShut s a laws = record {
    unknown = ground (
      arith,
      closed_pid idr s a,
      close_global idr s a,
      laws.find_remove s.tables.global_ft (s.tables.files a).persistent_id,
    );
  }

  pub turn-Settled :
      (s : OpenTables I) (a : ℕ)
      → IdrLaws idr
      → IsRegistered idr s a
      → Settled (is_reconnectable (s.opens a)) (turn idr s a) a
  unfolding Settled
  turn-Settled s a laws r = elim (Bool-cases (is_reconnectable (s.opens a))) [
    | inl parts ↦ rw (parts, turn_parts idr s a parts) (part-IsParted s a r)
    | inr closes ↦ rw (closes, turn_closes idr s a closes) (close-IsShut s a laws)
  ]

  part_pid :
      (s : OpenTables I) (c a : ℕ)
      → ((part s c).tables.files a).persistent_id ≡ (s.tables.files a).persistent_id
  unfolding part update set_conn
  part_pid s c a = ground arith

  close_pid :
      (s : OpenTables I) (c a : ℕ)
      → ((close_one idr s c).tables.files a).persistent_id ≡ (s.tables.files a).persistent_id
  unfolding close_one close_file remove_fd remove_durable_fd update unlist
  close_pid s c a = ground arith

  -- A turn leaves the persistent id of every open.
  pub turn_pid :
      (s : OpenTables I) (c a : ℕ)
      → ((turn idr s c).tables.files a).persistent_id ≡ (s.tables.files a).persistent_id
  turn_pid s c a = elim (Bool-cases (is_reconnectable (s.opens c))) [
    | inl parts ↦ rw (turn_parts idr s c parts) (part_pid s c a)
    | inr closes ↦ rw (turn_closes idr s c closes) (close_pid s c a)
  ]
