-- ===== src/TreeConnect/Effects.antt =====
-- What a connect, a disconnect and a logoff of mgmt/tree_connect.c leave behind: the ids that the session
-- holds and the references to the shares.
use cifsd.Base.{
  map, ℕ, suc, ◌+◌, ◌≡◌, ◌≢◌, ◌<◌, ◌∙◌, ap, refl, true, false, Option, none, some, List, [], ◌∷◌,
  ◌==◌, All, arith, if◌then◌else◌, if_elim,
}
use cifsd.Ids.{Ida, IdaLaws, Acquired, cifds_acquire_smb2_tid, cifds_release_id}
use cifsd.Ids.Reserved.{IsFresh, fresh, none_left, Keeps, smb2_ids-IsFresh}
use cifsd.Shares.{Table, cifsd_share_config_get, cifsd_share_config_put}
use cifsd.Shares.Live.{
  HasName, IsLive, IsGot, got, refused, Adds, Drops, share_config_get-IsGot, put-IsLive,
}
use cifsd.TreeConnect.{
  TreeConn, World, TreeResponse, Env, Ret, ok, unfinished_id, with_ida, give_up, answered, numbered,
  shared, cifsd_tree_conn_connect,
}
use cifsd.TreeConnect.Owned.{IsOwned, acquire_smb2, connect-IsOwned}
use cifsd.TreeConnect.Count.{uses, IsOther, IsDistinct}

-- `held` and one reference more on `sc`.
abbrev pub with_one : (ℕ → ℕ) → ℕ → ℕ → ℕ
with_one held sc p = held p + (if p == sc then 1 else 0)

-- The id of the tree connect is taken.
unfoldable pub IsTaken : {I : Type 0} → Ida I → I → TreeConn → Type 0
IsTaken ida t tc = ida.is_taken t tc.id ≡ true

module _ {I : Type 0} (ida : Ida I) (held : ℕ → ℕ) where
  -- The shares are held, and each count is what others hold (`held`) with the tree connects of this
  -- session, with room for `n` more; the ids of the tree connects differ and are taken.
  pub record IsWell (n : ℕ) (w : World I) : Type 0 where
    pub live : IsLive w.table
    pub counted : (p : ℕ) → w.table.refcount p ≡ held p + uses p w.sess.tree_conn_list
    pub room : (p : ℕ) → w.table.refcount p + n < 4294967296
    pub distinct : IsDistinct w.sess.tree_conn_list
    pub taken : All (IsTaken ida w.sess.tree_conn_ida) w.sess.tree_conn_list
    pub smb1_off : w.sess.smb1 ≡ false
    pub smb2_on : w.sess.smb2 ≡ true

  -- How the list of tree connects ends, with the share of the name, and that all is well, for room left
  -- for `n` more references.
  pub data IsConnected (n : ℕ) (name : List ℕ) (w : World I) : Ret × World I → Type 0 where
    joined :
        {tc : TreeConn} {w' : World I}
        → All (IsOther tc.id) w.sess.tree_conn_list
        → w'.sess.tree_conn_list ≡ tc ∷ w.sess.tree_conn_list
        → HasName name tc.share_conf w'.table.shares
        → IsWell n w'
        → IsConnected n name w (ok, w')
    failed :
        {ret : Ret} {w' : World I}
        → ret ≢ ok
        → ret ≢ unfinished_id
        → w'.sess.tree_conn_list ≡ w.sess.tree_conn_list
        → IsWell n w'
        → IsConnected n name w (ret, w')

IsTaken-Keeps :
    {I : Type 0} (ida : Ida I) (t t' : I) (tcs : List TreeConn)
    → Keeps ida t t'
    → All (IsTaken ida t) tcs
    → All (IsTaken ida t') tcs
unfolding IsTaken Keeps
IsTaken-Keeps ida t t' [] k h = tt
IsTaken-Keeps ida t t' (tc ∷ rest) k (h, hs) = (k tc.id h, IsTaken-Keeps ida t t' rest k hs)

-- Giving back an id that no tree connect has leaves theirs taken.
pub IsTaken-release :
    {I : Type 0} (ida : Ida I) (laws : IdaLaws ida) (t : I) (id : ℕ) (tcs : List TreeConn)
    → All (IsOther id) tcs
    → All (IsTaken ida t) tcs
    → All (IsTaken ida (cifds_release_id ida t id)) tcs
unfolding IsTaken IsOther cifds_release_id
IsTaken-release ida laws t id [] o h = tt
IsTaken-release ida laws t id (tc ∷ rest) (o, os) (h, hs) =
    (laws.remove_other t id tc.id o ∙ h, IsTaken-release ida laws t id rest os hs)

-- A free id is none of those that are taken.
free-IsOther :
    {I : Type 0} (ida : Ida I) (t : I) (id : ℕ) (tcs : List TreeConn)
    → ida.is_taken t id ≡ false
    → All (IsTaken ida t) tcs
    → All (IsOther id) tcs
unfolding IsTaken IsOther
free-IsOther ida t id [] f h = tt
free-IsOther ida t id (tc ∷ rest) f (h, hs) =
    (λ e. ground (arith, ap (λ x. ida.is_taken t x) e), free-IsOther ida t id rest f hs)

module _ {I : Type 0} (ida : Ida I) (held : ℕ → ℕ) where
  ida-IsWell :
      (n : ℕ) (w : World I) (t : I)
      → IsWell ida held n w
      → Keeps ida w.sess.tree_conn_ida t
      → IsWell ida held n (record w { sess = record w.sess { tree_conn_ida = t } })
  ida-IsWell n w t h k = record {
    live = h.live;
    counted = h.counted;
    room = h.room;
    distinct = h.distinct;
    taken = IsTaken-Keeps ida w.sess.tree_conn_ida t w.sess.tree_conn_list k h.taken;
    smb1_off = h.smb1_off;
    smb2_on = h.smb2_on;
  }

module _ {I : Type 0} (ida : Ida I) (laws : IdaLaws ida) (held : ℕ → ℕ) where
  put-IsWell :
      (n sc : ℕ) (w : World I)
      → IsWell ida (with_one held sc) n w
      → IsWell ida held n (record w { table = cifsd_share_config_put sc w.table })
  unfolding Drops
  put-IsWell n sc w h =
      let p =
        put-IsLive sc w.table h.live (ground (arith, h.counted sc)) (omega (arith, h.room sc)) in
      record {
        live = p.1;
        counted = λ x. ground (arith, p.0 x, h.counted x);
        room = λ x. ground (arith, p.0 x, h.room x);
        distinct = h.distinct;
        taken = h.taken;
        smb1_off = h.smb1_off;
        smb2_on = h.smb2_on;
      }

  give_up-IsWell :
      (n id sc : ℕ) (w : World I)
      → All (IsOther id) w.sess.tree_conn_list
      → IsWell ida (with_one held sc) n w
      → IsWell ida held n (give_up ida id sc w)
  unfolding give_up
  give_up-IsWell n id sc w o h =
      let k = put-IsWell n sc w h in
      record {
        live = k.live;
        counted = k.counted;
        room = k.room;
        distinct = h.distinct;
        taken = IsTaken-release ida laws w.sess.tree_conn_ida id w.sess.tree_conn_list o h.taken;
        smb1_off = h.smb1_off;
        smb2_on = h.smb2_on;
      }

  answered-IsConnected :
      (n : ℕ) (r : Option TreeResponse) (name : List ℕ) (id sc : ℕ) (w w0 : World I)
      → w0.sess.tree_conn_list ≡ w.sess.tree_conn_list
      → All (IsOther id) w0.sess.tree_conn_list
      → ida.is_taken w0.sess.tree_conn_ida id ≡ true
      → HasName name sc w0.table.shares
      → IsWell ida (with_one held sc) n w0
      → IsConnected ida held n name w (answered ida r id sc w0)
  unfolding answered give_up uses IsDistinct IsTaken
  answered-IsConnected n none name id sc w w0 e o t m h =
      failed (λ p. ground arith) (λ p. ground arith) e (give_up-IsWell n id sc w0 o h)
  answered-IsConnected n (some r) name id sc w w0 e o t m h =
      let tc : TreeConn = record {
        id = id;
        flags = r.connection_flags;
        user = w0.sess.user;
        share_conf = sc;
      } in
      if_elim (IsConnected ida held n name w) (r.status == 0)
        (joined {tc = tc} (rw⁻¹ e o) (ap (λ l. tc ∷ l) e) m (record {
          live = h.live;
          counted = λ p. ground (arith, h.counted p);
          room = h.room;
          distinct = (o, h.distinct);
          taken = (t, h.taken);
          smb1_off = h.smb1_off;
          smb2_on = h.smb2_on;
        }))
        (failed {ret = Ret.refused r.status} (λ p. ground arith) (λ p. ground arith) e
          (give_up-IsWell n id sc w0 o h))

  numbered-IsConnected :
      (n : ℕ) (r : Option TreeResponse) (name : List ℕ) (sc : ℕ) (w w0 : World I) (a : Acquired I)
      → w0.sess.tree_conn_list ≡ w.sess.tree_conn_list
      → IsFresh ida w0.sess.tree_conn_ida 0 0xffff a
      → HasName name sc w0.table.shares
      → IsWell ida (with_one held sc) n w0
      → IsConnected ida held n name w (numbered ida r sc w0 a)
  unfolding numbered Keeps
  numbered-IsConnected n r name sc w w0 _ e (fresh {id = id} {t' = t} f d free taken k) m h =
      answered-IsConnected n r name id sc w (with_ida ida t w0) e
        (free-IsOther ida w0.sess.tree_conn_ida id w0.sess.tree_conn_list free h.taken) taken m
        (ida-IsWell ida (with_one held sc) n w0 t h k)
  numbered-IsConnected n r name sc w w0 _ e (none_left {t' = t} k) m h =
      failed (λ p. ground arith) (λ p. ground arith) e
        (put-IsWell n sc (with_ida ida t w0) (ida-IsWell ida (with_one held sc) n w0 t h k))

  shared-IsConnected :
      (n : ℕ) (env : Env) (name : List ℕ) (w : World I) (r : Option ℕ × Table)
      → IsWell ida held (suc n) w
      → IsGot name w.table r
      → IsConnected ida held n name w (shared ida env w r)
  unfolding shared Adds
  shared-IsConnected n env name w _ h refused =
      failed (λ p. ground arith) (λ p. ground arith) refl
        (record {
          live = h.live;
          counted = h.counted;
          room = λ p. omega (arith, h.room p);
          distinct = h.distinct;
          taken = h.taken;
          smb1_off = h.smb1_off;
          smb2_on = h.smb2_on;
        })
  shared-IsConnected n env name w _ h (got {p = sc} {t' = t} a live one m) =
      let k : IsWell ida (with_one held sc) n (record w { table = t }) = record {
        live = live;
        counted = λ p. omega (arith, a p, h.counted p);
        room = λ p. ground (arith, a p, h.room p);
        distinct = h.distinct;
        taken = h.taken;
        smb1_off = h.smb1_off;
        smb2_on = h.smb2_on;
      } in
      if_elim (IsConnected ida held n name w) env.memory
        (rw (acquire_smb2 ida laws w.sess h.smb1_off h.smb2_on) (
          numbered-IsConnected n env.response name sc w (record w { table = t })
            (cifds_acquire_smb2_tid ida w.sess.tree_conn_ida) refl
            (smb2_ids-IsFresh ida laws w.sess.tree_conn_ida).0 m k))
        (failed (λ p. ground arith) (λ p. ground arith) refl
          (put-IsWell n sc (record w { table = t }) k))

  got-IsConnected :
      (n : ℕ) (env : Env) (name : List ℕ) (w : World I)
      → IsWell ida held (suc n) w
      → IsConnected ida held n (map env.tolower name) w (cifsd_tree_conn_connect ida env name w)
  unfolding cifsd_tree_conn_connect
  got-IsConnected n env name w h =
      shared-IsConnected n env (map env.tolower name) w
        (cifsd_share_config_get env.tolower env.share_memory env.answer name w.table) h
        (share_config_get-IsGot env.tolower env.share_memory env.answer name w.table h.live)

  -- A connect of an SMB2 session, whatever the daemon answers and the memory gives, ends either with one
  -- tree connect more, of a share with the name asked for, in small letters, under an id that none of
  -- the others has; or with an error and the same list. In both cases all reference counts are right, for
  -- every holder of a share, the ids of the tree connects differ and are taken, and every other id that
  -- was free or had a tree connect is free or has one, but for the reserved id: an error leaks none.
  pub connect-IsConnected :
      (n : ℕ) (env : Env) (name : List ℕ) (w : World I)
      → IsWell ida held (suc n) w
      → IsOwned ida w
      → IsConnected ida held n (map env.tolower name) w (cifsd_tree_conn_connect ida env name w)
        × IsOwned ida (cifsd_tree_conn_connect ida env name w).1
  connect-IsConnected n env name w h o =
      (got-IsConnected n env name w h, connect-IsOwned ida laws env name w h.smb1_off h.smb2_on o)
