-- ===== src/Oplock/Grant/Exclusive.antt =====
-- smb_grant_oplock of oplock.c keeps a write oplock alone on its inode, as long as no open is for
-- attributes only and no lease is involved.
use cifsd.Base.{
  ℕ, ◌≡◌, refl, sym, ap, ◌∙◌, ◌⊎◌, inl, inr, true, false, ◌&&◌, none, List, [], ◌∷◌, ◌==◌, arith,
  All, Bool-cases, length,
}
use cifsd.Oplock.{OpInfo, idle, is_smb2_write}
use cifsd.Oplock.Break.{Event, smb_send_oplock_break_notification}
use cifsd.Oplock.Break.Laws.{IsPlain, oplock_break_completes}
use cifsd.Oplock.Grant.{
  Inode, Opening, alloc_opinfo, set_oplock_level, install, smb_grant_oplock, set_lev, share,
  shared_level, shared_lctx, beside, break_newest,
}

abbrev pub NoWriter : OpInfo → Type 0
NoWriter o = is_smb2_write o.level ≡ false

-- Only the newest oplock may be for writing, and then it is the only one.
abbrev pub IsSole : List OpInfo → Type 0
IsSole [] = Unit {0}
IsSole (o ∷ rest) = (is_smb2_write o.level ≡ true → rest ≡ []) × All NoWriter rest

pub record IsExclusive (i : Inode) : Type 0 where
  pub counted : i.op_count ≡ length i.op_list
  pub plain : All IsPlain i.op_list
  pub sole : IsSole i.op_list

-- An open with an SMB2 oplock request and more than the attributes in view.
pub record IsOplockOpen (r : Opening) : Type 0 where
  pub smb2 : r.is_smb2 ≡ true
  pub no_lease : r.lctx ≡ none
  pub not_attr : r.attr_fp ≡ false

new_oplock : Opening → ℕ → OpInfo
new_oplock r l = set_oplock_level (alloc_opinfo r) l none

new_oplock-IsPlain : (r : Opening) (l : ℕ) → IsOplockOpen r → IsPlain (new_oplock r l)
unfolding new_oplock set_oplock_level alloc_opinfo
new_oplock-IsPlain r l v = ground arith

new_oplock-NoWriter :
    (r : Opening) (l : ℕ) → IsOplockOpen r → (l ≡ 0) ⊎ (l ≡ 1) → NoWriter (new_oplock r l)
unfolding new_oplock set_oplock_level alloc_opinfo
new_oplock-NoWriter r l v h = ground arith

install_alone :
    (o : OpInfo) (i : Inode)
    → IsPlain o
    → i.op_list ≡ []
    → i.op_count ≡ 0
    → IsExclusive (install o i).0
unfolding install
install_alone o i p e c = record {
  counted = omega (arith, ap length e);
  plain = (p, rw e tt);
  sole = (λ _. e, rw e tt);
}

install_shared :
    (o : OpInfo) (i : Inode)
    → IsPlain o
    → NoWriter o
    → i.op_count ≡ length i.op_list
    → All IsPlain i.op_list
    → All NoWriter i.op_list
    → IsExclusive (install o i).0
unfolding install
install_shared o i p n c ps ns = record {
  counted = omega arith;
  plain = (p, ps);
  sole = (λ w. absurd (no_both w n), ns);
}
  where
    no_both : is_smb2_write o.level ≡ true → is_smb2_write o.level ≡ false → ⊥
    no_both w f = cc

nil_of_length : (l : List OpInfo) → length l ≡ 0 → l ≡ []
nil_of_length [] e = refl
nil_of_length (o ∷ l) e = absurd (omega arith)

module _ (r : Opening) (v : IsOplockOpen r) where
  set_lev_lem : (l : ℕ) (i : Inode) → set_lev r l i ≡ install (new_oplock r l) i
  unfolding set_lev new_oplock
  set_lev_lem l i = ap (λ c. install (set_oplock_level (alloc_opinfo r) l c) i) v.no_lease

  shared_lctx-none : (prev : OpInfo) → shared_lctx r prev ≡ none
  unfolding shared_lctx
  shared_lctx-none prev = ground (arith, v.no_lease)

  share_lem :
      (prev : OpInfo) (i : Inode)
      → r.share_failed ≡ false
      → share r prev i ≡ install (new_oplock r (shared_level r prev)) i
  unfolding share new_oplock
  share_lem prev i f =
      share_ok
      ∙ ap (λ c. install (set_oplock_level (alloc_opinfo r) (shared_level r prev) c) i)
          (shared_lctx-none prev)
    where
      share_ok :
          share r prev i
          ≡ install (set_oplock_level (alloc_opinfo r) (shared_level r prev) (shared_lctx r prev)) i
      share_ok = ground arith

  share_refused : (prev : OpInfo) (i : Inode) → r.share_failed ≡ true → (share r prev i).0 ≡ i
  unfolding share
  share_refused prev i f = ground arith

  shared_level_low : (prev : OpInfo) → (shared_level r prev ≡ 0) ⊎ (shared_level r prev ≡ 1)
  unfolding shared_level
  shared_level_low prev = ground arith

  -- Beside oplocks that are not for writing, a new one is not either.
  share-IsExclusive :
      (prev : OpInfo) (i : Inode)
      → IsExclusive i
      → All NoWriter i.op_list
      → IsExclusive (share r prev i).0
  share-IsExclusive prev i x n = elim (Bool-cases r.share_failed) [
    | inl f ↦ rw (share_refused prev i f) x
    | inr f ↦ rw (share_lem prev i f) (
        install_shared (new_oplock r (shared_level r prev)) i
          (new_oplock-IsPlain r (shared_level r prev) v)
          (new_oplock-NoWriter r (shared_level r prev) v (shared_level_low prev)) x.counted x.plain
          n)
  ]

  set_lev-IsExclusive :
      (l : ℕ) (i : Inode) → i.op_list ≡ [] → i.op_count ≡ 0 → IsExclusive (set_lev r l i).0
  set_lev-IsExclusive l i e c =
      rw (set_lev_lem l i) (install_alone (new_oplock r l) i (new_oplock-IsPlain r l v) e c)

  broken :
      (es : List Event) (prev : OpInfo) (rest : List OpInfo) (count : ℕ)
      → rest ≡ []
      → count ≡ 1
      → (let (o', closed) = smb_send_oplock_break_notification prev es in
          (o'.op_state ≡ idle) × IsPlain o' × ((closed ≡ true) ⊎ (is_smb2_write o'.level ≡ false)))
      → (smb_send_oplock_break_notification prev es).1 ≡ false
      → IsExclusive
          (share r prev (record {
            op_list = (smb_send_oplock_break_notification prev es).0 ∷ rest;
            op_count = count;
          })).0
  broken es prev rest count e c (quiet, p, inl closed) stays = absurd (cc)
  broken es prev rest count e c (quiet, p, inr n) stays =
      share-IsExclusive prev _
        (record {
          counted = omega (arith, ap length e);
          plain = (p, rw e tt);
          sole = (λ _. e, rw e tt);
        })
        (n, rw e tt)

  break_newest-IsExclusive :
      (es : List Event) (prev : OpInfo) (rest : List OpInfo) (count : ℕ)
      → IsPlain prev
      → is_smb2_write prev.level ≡ true
      → rest ≡ []
      → count ≡ 1
      → IsExclusive (break_newest r es prev rest count).0
  unfolding break_newest
  break_newest-IsExclusive es prev rest count p w e c =
      elim (Bool-cases (smb_send_oplock_break_notification prev es).1) [
        | inl closed ↦ rw closed (set_lev-IsExclusive r.req_op_level _ e (omega arith))
        | inr stays ↦
            rw stays (broken es prev rest count e c (oplock_break_completes prev es p w) stays)
      ]

  beside_writer :
      (es : List Event) (prev : OpInfo) (rest : List OpInfo) (count : ℕ)
      → IsExclusive (record { op_list = prev ∷ rest; op_count = count })
      → is_smb2_write prev.level ≡ true
      → IsExclusive (beside r es (prev ∷ rest) count).0
  unfolding beside
  beside_writer es prev rest count x w = elim (Bool-cases (r.share_failed && prev.level == 8)) [
    | inl failed ↦ rw failed x
    | inr fine ↦
        rw (fine, w)
          (break_newest-IsExclusive es prev rest count x.plain.0 w (x.sole.0 w)
            (omega (arith, x.counted, ap length (x.sole.0 w))))
  ]

  beside_reader :
      (es : List Event) (prev : OpInfo) (rest : List OpInfo) (count : ℕ)
      → IsExclusive (record { op_list = prev ∷ rest; op_count = count })
      → is_smb2_write prev.level ≡ false
      → IsExclusive (beside r es (prev ∷ rest) count).0
  unfolding beside
  beside_reader es prev rest count x n = elim (Bool-cases (r.share_failed && prev.level == 8)) [
    | inl failed ↦ rw failed x
    | inr fine ↦ rw (fine, n) (share-IsExclusive prev _ x (n, x.sole.1))
  ]

  beside-IsExclusive :
      (es : List Event) (list : List OpInfo) (count : ℕ)
      → IsExclusive (record { op_list = list; op_count = count })
      → IsExclusive (beside r es list count).0
  unfolding beside set_lev
  beside-IsExclusive es [] count x = set_lev-IsExclusive r.req_op_level _ refl x.counted
  beside-IsExclusive es (prev ∷ rest) count x = elim (Bool-cases (is_smb2_write prev.level)) [
    | inl w ↦ beside_writer es prev rest count x w
    | inr n ↦ beside_reader es prev rest count x n
  ]

  grant_cases :
      (es : List Event) (i : Inode)
      → ((smb_grant_oplock r es i).0 ≡ i)
        ⊎ ((i.op_count ≡ 0) × (smb_grant_oplock r es i ≡ set_lev r r.req_op_level i))
        ⊎ (smb_grant_oplock r es i ≡ beside r es i.op_list i.op_count)
  unfolding smb_grant_oplock
  grant_cases es i = ground (arith, v.no_lease, v.not_attr)

  -- On an inode whose oplocks are counted, of SMB2 and without leases, with a write oplock only if it
  -- is alone, an SMB2 open without a lease context and not for attributes only leaves it so, whatever
  -- the holder of a write oplock does while it is broken, and whether or not the open is granted.
  pub grant-IsExclusive :
      (es : List Event) (i : Inode) → IsExclusive i → IsExclusive (smb_grant_oplock r es i).0
  grant-IsExclusive es i x = elim (grant_cases es i) [
    | inl e ↦ rw e x
    | inr (inl (c, e)) ↦
        rw e (set_lev-IsExclusive r.req_op_level i (nil_of_length i.op_list (sym x.counted ∙ c)) c)
    | inr (inr e) ↦ rw e (beside-IsExclusive es i.op_list i.op_count x)
  ]
