-- ===== src/TreeConnect/Owned.antt =====
-- No id of a session is lost: what mgmt/tree_connect.c takes of the ids, a tree connect has.
use cifsd.Base.{
  ℕ, ◌≡◌, ◌∙◌, ◌⊎◌, inl, inr, Bool, true, false, Option, none, some, List, [], ◌∷◌, ◌==◌, if_elim,
  Bool-cases, arith,
}
use cifsd.Ids.{
  Ida, IdaLaws, Acquired, acquired, no_id, unfinished, cifds_acquire_smb2_tid, cifds_release_id,
}
use cifsd.Ids.Others.{Others, smb2_tid-Others}
use cifsd.Shares.{Table, cifsd_share_config_get}
use cifsd.TreeConnect.{
  TreeConn, Session, World, TreeResponse, Env, Ret, with_ida, ida_of, cifsd_acquire_tree_conn_id,
  give_up, answered, numbered, shared, list_del, cifsd_tree_conn_connect,
  cifsd_tree_conn_disconnect,
}

-- A tree connect of the list has the id.
abbrev pub HasId : ℕ → List TreeConn → Type 0
HasId x [] = ⊥
HasId x (tc ∷ rest) = (tc.id ≡ x) ⊎ HasId x rest

-- Every id is free, or has a tree connect, or is the reserved one.
abbrev pub Owned : {I : Type 0} → Ida I → I → List TreeConn → Type 0
Owned ida t tcs = (x : ℕ) → (ida.is_taken t x ≡ false) ⊎ HasId x tcs ⊎ (x ≡ 0xffff)

abbrev pub IsOwned : {I : Type 0} → Ida I → World I → Type 0
IsOwned ida w = Owned ida w.sess.tree_conn_ida w.sess.tree_conn_list

list_del-HasId :
    (id x : ℕ) (tcs : List TreeConn) → HasId x tcs → (x == id) ≡ false → HasId x (list_del id tcs)
unfolding list_del
list_del-HasId id x [] m d = m
list_del-HasId id x (tc ∷ rest) (inl e) d =
    let other : (tc.id == id) ≡ false = ground (arith, e, d) in rw other (inl e)
list_del-HasId id x (tc ∷ rest) (inr m) d = elim (Bool-cases (tc.id == id)) [
  | inl e ↦ rw e m
  | inr e ↦ rw e (inr (list_del-HasId id x rest m d))
]

module _ {I : Type 0} (ida : Ida I) (laws : IdaLaws ida) where
  -- An id that is given back is free; the others are as they were.
  released :
      (t : I) (id x : ℕ)
      → (ida.is_taken (cifds_release_id ida t id) x ≡ false)
        ⊎ (((x == id) ≡ false) × (ida.is_taken (cifds_release_id ida t id) x ≡ ida.is_taken t x))
  unfolding cifds_release_id
  released t id x = elim (Bool-cases (x == id)) [
    | inl e ↦ let p : x ≡ id = ground arith in inl (rw p (laws.remove_free t id))
    | inr d ↦ inr (d, laws.remove_other t id x (λ p. ground arith))
  ]

  -- Giving back the id that was found last.
  release-Owned :
      (t t' : I) (id : ℕ) (tcs : List TreeConn)
      → Owned ida t tcs
      → Others ida t 0xffff (acquired id t')
      → Owned ida (cifds_release_id ida t' id) tcs
  release-Owned t t' id tcs o u x = elim (released t' id x) [
    | inl free ↦ inl free
    | inr (d, same) ↦ elim (u x) [
      | inl p ↦ absurd (ground (arith, p, d))
      | inr (inl p) ↦ inr (inr p)
      | inr (inr p) ↦ elim (o x) [ inl free ↦ inl (same ∙ p ∙ free) | inr r ↦ inr r ]
    ]
  ]

  -- A tree connect takes the id that was found.
  join-Owned :
      (t t' : I) (tc : TreeConn) (tcs : List TreeConn)
      → Owned ida t tcs
      → Others ida t 0xffff (acquired tc.id t')
      → Owned ida t' (tc ∷ tcs)
  join-Owned t t' tc tcs o u x = elim (u x) [
    | inl p ↦ inr (inl (inl (ground (arith, p))))
    | inr (inl p) ↦ inr (inr p)
    | inr (inr p) ↦ elim (o x) [
      | inl free ↦ inl (p ∙ free)
      | inr (inl m) ↦ inr (inl (inr m))
      | inr (inr r) ↦ inr (inr r)
    ]
  ]

  lost-Owned :
      (t t' : I) (tcs : List TreeConn)
      → Owned ida t tcs
      → Others ida t 0xffff (no_id t')
      → Owned ida t' tcs
  lost-Owned t t' tcs o u x = elim (u x) [
    | inl p ↦ inr (inr p)
    | inr p ↦ elim (o x) [ inl free ↦ inl (p ∙ free) | inr r ↦ inr r ]
  ]

  answered-IsOwned :
      (r : Option TreeResponse) (id sc : ℕ) (t' : I) (w : World I)
      → IsOwned ida w
      → Others ida w.sess.tree_conn_ida 0xffff (acquired id t')
      → IsOwned ida (answered ida r id sc (with_ida ida t' w)).1
  unfolding answered give_up
  answered-IsOwned none id sc t' w o u =
      release-Owned w.sess.tree_conn_ida t' id w.sess.tree_conn_list o u
  answered-IsOwned (some r) id sc t' w o u =
      if_elim (λ (p : Ret × World I). IsOwned ida p.1) (r.status == 0)
        (join-Owned w.sess.tree_conn_ida t'
          (record { id = id; flags = r.connection_flags; user = w.sess.user; share_conf = sc })
          w.sess.tree_conn_list o u)
        (release-Owned w.sess.tree_conn_ida t' id w.sess.tree_conn_list o u)

  numbered-IsOwned :
      (r : Option TreeResponse) (sc : ℕ) (w : World I) (a : Acquired I)
      → IsOwned ida w
      → Others ida w.sess.tree_conn_ida 0xffff a
      → IsOwned ida (numbered ida r sc w a).1
  unfolding numbered
  numbered-IsOwned r sc w (acquired id t') o u = answered-IsOwned r id sc t' w o u
  numbered-IsOwned r sc w (no_id t') o u =
      lost-Owned w.sess.tree_conn_ida t' w.sess.tree_conn_list o u
  numbered-IsOwned r sc w unfinished o u = o

  pub acquire_smb2 :
      (s : Session I)
      → s.smb1 ≡ false
      → s.smb2 ≡ true
      → cifsd_acquire_tree_conn_id ida s ≡ cifds_acquire_smb2_tid ida s.tree_conn_ida
  unfolding cifsd_acquire_tree_conn_id ida_of
  acquire_smb2 s a b = ground arith

  shared-IsOwned :
      (env : Env) (w : World I) (r : Option ℕ × Table)
      → w.sess.smb1 ≡ false
      → w.sess.smb2 ≡ true
      → IsOwned ida w
      → IsOwned ida (shared ida env w r).1
  unfolding shared
  shared-IsOwned env w (none, t) a b o = o
  shared-IsOwned env w (some sc, t) a b o =
      if_elim (λ (p : Ret × World I). IsOwned ida p.1) env.memory
        (rw (acquire_smb2 w.sess a b) (
          numbered-IsOwned env.response sc (record w { table = t })
            (cifds_acquire_smb2_tid ida w.sess.tree_conn_ida) o
            (smb2_tid-Others ida laws w.sess.tree_conn_ida)))
        o

  pub connect-IsOwned :
      (env : Env) (name : List ℕ) (w : World I)
      → w.sess.smb1 ≡ false
      → w.sess.smb2 ≡ true
      → IsOwned ida w
      → IsOwned ida (cifsd_tree_conn_connect ida env name w).1
  unfolding cifsd_tree_conn_connect
  connect-IsOwned env name w a b o =
      shared-IsOwned env w
        (cifsd_share_config_get env.tolower env.share_memory env.answer name w.table) a b o

  pub disconnect-IsOwned :
      (fails : ℕ → Bool) (tc : TreeConn) (w : World I)
      → IsOwned ida w
      → IsOwned ida (cifsd_tree_conn_disconnect ida fails tc w).1
  unfolding cifsd_tree_conn_disconnect
  disconnect-IsOwned fails tc w o x = elim (released w.sess.tree_conn_ida tc.id x) [
    | inl free ↦ inl free
    | inr (d, same) ↦ elim (o x) [
      | inl free ↦ inl (same ∙ free)
      | inr (inl m) ↦ inr (inl (list_del-HasId tc.id x w.sess.tree_conn_list m d))
      | inr (inr r) ↦ inr (inr r)
    ]
  ]
