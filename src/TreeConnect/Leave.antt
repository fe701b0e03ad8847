-- ===== src/TreeConnect/Leave.antt =====
-- What a disconnect and a logoff of mgmt/tree_connect.c leave behind.
use cifsd.Base.{
  ℕ, zero, suc, ◌≡◌, ◌≤◌, ◌∙◌, ap, refl, Bool, ◌||◌, Option, some, List, [], ◌∷◌, length, arith,
}
use cifsd.Ids.{Ida, IdaLaws}
use cifsd.Shares.Live.{Drops, put-IsLive}
use cifsd.TreeConnect.{
  TreeConn, World, cifsd_tree_conn_lookup, list_del, cifsd_tree_conn_disconnect,
  cifsd_tree_conn_session_logoff,
}
use cifsd.TreeConnect.Count.{
  uses-list_del, del_here, All-list_del, list_del-IsDistinct, del-IsOther,
}
use cifsd.TreeConnect.Owned.{IsOwned, disconnect-IsOwned}
use cifsd.TreeConnect.Effects.{IsTaken, IsWell, IsTaken-release}

module _ {I : Type 0} (ida : Ida I) (laws : IdaLaws ida) (held : ℕ → ℕ) where
  -- A disconnect of a tree connect of the session: the ids and the reference counts stay right.
  pub disconnect-IsWell :
      (n : ℕ) (fails : ℕ → Bool) (tc : TreeConn) (w : World I)
      → IsWell ida held n w
      → cifsd_tree_conn_lookup w.sess.tree_conn_list tc.id ≡ some tc
      → IsWell ida held n (cifsd_tree_conn_disconnect ida fails tc w).1
  unfolding cifsd_tree_conn_disconnect Drops
  disconnect-IsWell n fails tc w h e =
      let u : (p : ℕ) → _ = λ p. uses-list_del p tc.id w.sess.tree_conn_list tc e in
      let p =
        put-IsLive tc.share_conf w.table h.live
          (ground (arith, h.counted tc.share_conf, u tc.share_conf))
          (omega (arith, h.room tc.share_conf)) in
      record {
        live = p.1;
        counted = λ x. ground (arith, p.0 x, h.counted x, u x);
        room = λ x. ground (arith, p.0 x, h.room x);
        distinct = list_del-IsDistinct tc.id w.sess.tree_conn_list h.distinct;
        taken =
            IsTaken-release ida laws w.sess.tree_conn_ida tc.id
              (list_del tc.id w.sess.tree_conn_list)
              (del-IsOther tc.id w.sess.tree_conn_list h.distinct)
              (All-list_del (IsTaken ida w.sess.tree_conn_ida) tc.id w.sess.tree_conn_list h.taken);
        smb1_off = h.smb1_off;
        smb2_on = h.smb2_on;
      }

  -- A logoff ends after as many turns as there are tree connects, and leaves none of them.
  pub data IsLoggedOff (n : ℕ) : Option (Bool × World I) → Type 0 where
    logged_off :
        {ret : Bool} {w : World I}
        → w.sess.tree_conn_list ≡ []
        → IsWell ida held n w
        → IsOwned ida w
        → IsLoggedOff n (some (ret, w))

  lookup_head :
      (tc : TreeConn) (rest : List TreeConn) → cifsd_tree_conn_lookup (tc ∷ rest) tc.id ≡ some tc
  unfolding cifsd_tree_conn_lookup
  lookup_head tc rest = ground arith

  pub disconnected_list :
      (fails : ℕ → Bool) (tc : TreeConn) (w : World I)
      → (cifsd_tree_conn_disconnect ida fails tc w).1.sess.tree_conn_list
        ≡ list_del tc.id w.sess.tree_conn_list
  unfolding cifsd_tree_conn_disconnect
  disconnected_list fails tc w = refl

  turn_none :
      (fuel : ℕ) (fails : ℕ → Bool) (ret : Bool) (w : World I)
      → w.sess.tree_conn_list ≡ []
      → cifsd_tree_conn_session_logoff ida fuel fails ret w ≡ some (ret, w)
  unfolding cifsd_tree_conn_session_logoff
  turn_none zero fails ret w e = rw e refl
  turn_none (suc fuel) fails ret w e = ground arith

  turn_next :
      (fuel : ℕ) (fails : ℕ → Bool) (ret : Bool) (w : World I) (tc : TreeConn)
      (rest : List TreeConn)
      → w.sess.tree_conn_list ≡ tc ∷ rest
      → cifsd_tree_conn_session_logoff ida (suc fuel) fails ret w
        ≡ cifsd_tree_conn_session_logoff ida fuel fails
            (ret || (cifsd_tree_conn_disconnect ida fails tc w).0)
            (cifsd_tree_conn_disconnect ida fails tc w).1
  unfolding cifsd_tree_conn_session_logoff
  turn_next fuel fails ret w tc rest e = ground arith

  pub logoff-IsLoggedOff :
      (n fuel : ℕ) (fails : ℕ → Bool) (ret : Bool) (w : World I) (tcs : List TreeConn)
      → w.sess.tree_conn_list ≡ tcs
      → length tcs ≤ fuel
      → IsWell ida held n w
      → IsOwned ida w
      → IsLoggedOff n (cifsd_tree_conn_session_logoff ida fuel fails ret w)
  logoff-IsLoggedOff n fuel fails ret w [] e l h o =
      rw (turn_none fuel fails ret w e) (logged_off e h o)
  logoff-IsLoggedOff n zero fails ret w (tc ∷ tcs) e l h o = absurd (omega arith)
  logoff-IsLoggedOff n (suc fuel) fails ret w (tc ∷ tcs) e l h o =
      let found : cifsd_tree_conn_lookup w.sess.tree_conn_list tc.id ≡ some tc =
        ap (λ l. cifsd_tree_conn_lookup l tc.id) e ∙ lookup_head tc tcs in
      let gone : (cifsd_tree_conn_disconnect ida fails tc w).1.sess.tree_conn_list ≡ tcs =
        disconnected_list fails tc w ∙ ap (λ l. list_del tc.id l) e ∙ del_here tc.id tc tcs refl in
      rw (turn_next fuel fails ret w tc tcs e) (
        logoff-IsLoggedOff n fuel fails (ret || (cifsd_tree_conn_disconnect ida fails tc w).0)
          (cifsd_tree_conn_disconnect ida fails tc w).1 tcs gone (omega arith)
          (disconnect-IsWell n fails tc w h found) (disconnect-IsOwned ida laws fails tc w o))
