-- ===== src/Oplock/Grant/Hidden.antt =====
-- Two ways in which smb_grant_oplock of oplock.c leaves a write oplock unbroken beside a new open.
use cifsd.Base.{◌≡◌, ◌≢◌, refl, true, false, none, List, [], ◌∷◌, arith}
use cifsd.Oplock.{OpInfo, is_smb1_write, oplock_read}
use cifsd.Oplock.Break.{Event}
use cifsd.Oplock.Grant.{
  Inode, Opening, alloc_opinfo, set_oplock_level, install, smb_grant_oplock, set_lev, share,
  shared_level, shared_lctx, beside,
}

-- The inode with one oplock.
abbrev pub held_by : OpInfo → Inode
held_by o = record { op_list = o ∷ []; op_count = 1 }

attr_open :
    (w : OpInfo) (a : Opening) (es : List Event)
    → a.is_dir ≡ false
    → a.attr_fp ≡ true
    → a.lctx ≡ none
    → a.is_smb2 ≡ true
    → (na : OpInfo) × ((smb_grant_oplock a es (held_by w)).0
        ≡ record { op_list = na ∷ w ∷ []; op_count = 2 })
      × (na.level ≡ 0)
      × (na.is_lease ≡ false)
unfolding smb_grant_oplock set_lev install set_oplock_level alloc_opinfo
attr_open w a es d f l s =
    (set_oplock_level (alloc_opinfo a) 0 a.lctx, ground arith, ground arith, ground arith)

second_open :
    (na w : OpInfo) (b : Opening) (es : List Event)
    → na.level ≡ 0
    → b.is_dir ≡ false
    → b.attr_fp ≡ false
    → b.lctx ≡ none
    → b.share_failed ≡ false
    → (nb : OpInfo) × ((smb_grant_oplock b es (record { op_list = na ∷ w ∷ []; op_count = 2 })).0
        ≡ record { op_list = nb ∷ na ∷ w ∷ []; op_count = 3 })
unfolding smb_grant_oplock beside share install
second_open na w b es n d f l s =
    (set_oplock_level (alloc_opinfo b) (shared_level b na) (shared_lctx b na), ground arith)

-- Behind an open for attributes only, the oplock of an earlier open is no longer seen: the next open
-- is granted with no break, and an exclusive or batch oplock stays as it was.
pub attr_open_hides_writer :
    (w : OpInfo) (a b : Opening) (es fs : List Event)
    → a.is_dir ≡ false
    → a.attr_fp ≡ true
    → a.lctx ≡ none
    → a.is_smb2 ≡ true
    → b.is_dir ≡ false
    → b.attr_fp ≡ false
    → b.lctx ≡ none
    → b.share_failed ≡ false
    → (na nb : OpInfo) × ((smb_grant_oplock b fs (smb_grant_oplock a es (held_by w)).0).0.op_list
        ≡ nb ∷ na ∷ w ∷ [])
attr_open_hides_writer w a b es fs d f l s d' f' l' s' =
    let (na, e, n, _) = attr_open w a es d f l s in
    let (nb, e') = second_open na w b fs n d' f' l' s' in (na, nb, rw (e, e') refl)

-- The levels of an SMB1 oplock are compared with those of SMB2: a second open of SMB1 gets its level
-- II while the exclusive or batch oplock of the first stays as it was.
pub smb1_writer_not_broken :
    (w : OpInfo) (r : Opening) (es : List Event)
    → is_smb1_write w.level ≡ true
    → w.is_lease ≡ false
    → r.is_smb2 ≡ false
    → r.is_dir ≡ false
    → r.attr_fp ≡ false
    → r.lctx ≡ none
    → r.share_failed ≡ false
    → r.req_op_level ≢ 0
    → (n : OpInfo) × ((smb_grant_oplock r es (held_by w)).0.op_list ≡ n ∷ w ∷ [])
      × (n.level ≡ oplock_read)
unfolding smb_grant_oplock beside share install set_oplock_level alloc_opinfo shared_level
    shared_lctx
smb1_writer_not_broken w r es h nl s d f l sf q = (
  set_oplock_level (alloc_opinfo r) (shared_level r w) (shared_lctx r w),
  ground arith,
  ground arith,
)
