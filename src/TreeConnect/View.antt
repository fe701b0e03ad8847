-- ===== src/TreeConnect/View.antt =====
-- The tree connects of a session as a map from ids to shares, which mgmt/tree_connect.c implements.
use cifsd.Base.{
  map, ℕ, suc, ◌≡◌, ◌∙◌, ap, refl, Bool, false, Option, none, some, List, [], ◌∷◌, ◌==◌, length,
  arith, if◌then◌else◌,
}
use cifsd.Ids.{Ida, IdaLaws}
use cifsd.Shares.{Share}
use cifsd.Shares.Live.{HasName}
use cifsd.TreeConnect.{
  TreeConn, World, Env, Ret, cifsd_tree_conn_lookup, cifsd_tree_conn_share, list_del,
  cifsd_tree_conn_connect, cifsd_tree_conn_disconnect, cifsd_tree_conn_session_logoff,
}
use cifsd.TreeConnect.Count.{IsDistinct, lookup-none, lookup-list_del, lookup_id}
use cifsd.TreeConnect.Owned.{IsOwned, disconnect-IsOwned}
use cifsd.TreeConnect.Effects.{IsWell, IsConnected, joined, failed, connect-IsConnected}
use cifsd.TreeConnect.Leave.{
  disconnect-IsWell, disconnected_list, IsLoggedOff, logged_off, logoff-IsLoggedOff,
}

-- The share of each id, if it is connected, and the shares of the server.
pub record View : Type 0 where
  pub share_of : ℕ → Option ℕ
  pub shares : List Share

unfoldable pub view : {I : Type 0} → World I → View
view w = record {
  share_of = λ id. cifsd_tree_conn_share w.sess.tree_conn_list id;
  shares = w.table.shares;
}

-- What a client may ask of its session. A disconnect of an id that is not connected does nothing, as
-- smb2_get_cifsd_tcon finds none.
pub data TreeRequest : Type 0 where
  connect : Env → List ℕ → TreeRequest
  disconnect : ℕ → (ℕ → Bool) → TreeRequest
  logoff : (ℕ → Bool) → TreeRequest

-- What each request does to the map: a connect adds a share with the name asked for, in small letters,
-- under a free id, or fails and adds nothing.
pub data Step : TreeRequest → View → View → Type 0 where
  joins :
      {env : Env} {name : List ℕ} {v v' : View} (id share : ℕ)
      → v.share_of id ≡ none
      → HasName (map env.tolower name) share v'.shares
      → ((x : ℕ) → v'.share_of x ≡ (if x == id then some share else v.share_of x))
      → Step (connect env name) v v'
  stays :
      {env : Env} {name : List ℕ} {v v' : View}
      → ((x : ℕ) → v'.share_of x ≡ v.share_of x)
      → Step (connect env name) v v'
  leaves :
      {id : ℕ} {fails : ℕ → Bool} {v v' : View}
      → ((x : ℕ) → v'.share_of x ≡ (if x == id then none else v.share_of x))
      → Step (disconnect id fails) v v'
  clears :
      {fails : ℕ → Bool} {v v' : View} → ((x : ℕ) → v'.share_of x ≡ none) → Step (logoff fails) v v'

share-none :
    (tcs : List TreeConn) (id : ℕ)
    → cifsd_tree_conn_lookup tcs id ≡ none
    → cifsd_tree_conn_share tcs id ≡ none
unfolding cifsd_tree_conn_share
share-none tcs id e = ground arith

share-cons :
    (tcs : List TreeConn) (tc : TreeConn) (x : ℕ)
    → cifsd_tree_conn_share (tc ∷ tcs) x
      ≡ (if x == tc.id then some tc.share_conf else cifsd_tree_conn_share tcs x)
unfolding cifsd_tree_conn_share cifsd_tree_conn_lookup
share-cons tcs tc x = ground arith

share-list_del :
    (tcs : List TreeConn) (id x : ℕ)
    → IsDistinct tcs
    → cifsd_tree_conn_share (list_del id tcs) x
      ≡ (if x == id then none else cifsd_tree_conn_share tcs x)
unfolding cifsd_tree_conn_share
share-list_del tcs id x d = ground (arith, lookup-list_del id x tcs d)

-- The map steps from request to request.
pub data Steps : List TreeRequest → View → View → Type 0 where
  done : {v : View} → Steps [] v v
  next :
      {q : TreeRequest} {qs : List TreeRequest} {v v' v'' : View}
      → Step q v v'
      → Steps qs v' v''
      → Steps (q ∷ qs) v v''

module _ {I : Type 0} (ida : Ida I) where
  -- smb2_tree_disconnect, with the tree connect that was found for the id.
  pub disconnect_found : (ℕ → Bool) → World I → Option TreeConn → World I
  disconnect_found fails w none = w
  disconnect_found fails w (some tc) = (cifsd_tree_conn_disconnect ida fails tc w).1

  ended : World I → Option (Bool × World I) → World I
  ended w none = w
  ended w (some (ret, w')) = w'

  -- One request: the session afterwards.
  pub serve : TreeRequest → World I → World I
  unfolding disconnect_found ended
  serve (connect env name) w = (cifsd_tree_conn_connect ida env name w).1
  serve (disconnect id fails) w =
      disconnect_found fails w (cifsd_tree_conn_lookup w.sess.tree_conn_list id)
  serve (logoff fails) w =
      ended w (cifsd_tree_conn_session_logoff ida (length w.sess.tree_conn_list) fails false w)

  pub run_requests : List TreeRequest → World I → World I
  unfolding serve
  run_requests [] w = w
  run_requests (q ∷ qs) w = run_requests qs (serve q w)

less :
    {I : Type 0} {ida : Ida I} {held : ℕ → ℕ} (n : ℕ) (w : World I)
    → IsWell ida held (suc n) w
    → IsWell ida held n w
less n w h = record {
  live = h.live;
  counted = h.counted;
  room = λ p. omega (arith, h.room p);
  distinct = h.distinct;
  taken = h.taken;
  smb1_off = h.smb1_off;
  smb2_on = h.smb2_on;
}

module _ {I : Type 0} (ida : Ida I) (laws : IdaLaws ida) (held : ℕ → ℕ) where
  connect_refines :
      (n : ℕ) (env : Env) (name : List ℕ) (w : World I) (r : Ret × World I)
      → IsConnected ida held n (map env.tolower name) w r
      → Step (connect env name) (view w) (view r.1) × IsWell ida held n r.1
  unfolding view
  connect_refines n env name w _ (joined {tc = tc} {w' = w'} o e m h) = (
    joins tc.id tc.share_conf
        (share-none w.sess.tree_conn_list tc.id (lookup-none tc.id w.sess.tree_conn_list o)) m
        (λ x. ap (λ l. cifsd_tree_conn_share l x) e ∙ share-cons w.sess.tree_conn_list tc x),
    h,
  )
  connect_refines n env name w _ (failed a b e h) =
      (stays (λ x. ap (λ l. cifsd_tree_conn_share l x) e), h)

  found_refines :
      (n id : ℕ) (fails : ℕ → Bool) (w : World I) (o : Option TreeConn)
      → IsWell ida held n w
      → IsOwned ida w
      → cifsd_tree_conn_lookup w.sess.tree_conn_list id ≡ o
      → Step (disconnect id fails) (view w) (view (disconnect_found ida fails w o))
        × IsWell ida held n (disconnect_found ida fails w o)
        × IsOwned ida (disconnect_found ida fails w o)
  unfolding view disconnect_found
  found_refines n id fails w none h u e =
      let absent = share-none w.sess.tree_conn_list id e in
      (leaves (λ x. ground (arith, absent)), h, u)
  found_refines n id fails w (some tc) h u e =
      let same = lookup_id id w.sess.tree_conn_list tc e in
      let found : cifsd_tree_conn_lookup w.sess.tree_conn_list tc.id ≡ some tc =
        ap (λ x. cifsd_tree_conn_lookup w.sess.tree_conn_list x) same ∙ e in
      (
        leaves (λ x.
            ap (λ l. cifsd_tree_conn_share l x) (disconnected_list ida laws held fails tc w)
            ∙ share-list_del w.sess.tree_conn_list tc.id x h.distinct
            ∙ ap (λ y. if x == y then none else cifsd_tree_conn_share w.sess.tree_conn_list x)
                same),
        disconnect-IsWell ida laws held n fails tc w h found,
        disconnect-IsOwned ida laws fails tc w u,
      )

  ended_refines :
      (n : ℕ) (fails : ℕ → Bool) (w : World I) (o : Option (Bool × World I))
      → IsLoggedOff ida laws held n o
      → Step (logoff fails) (view w) (view (ended ida w o))
        × IsWell ida held n (ended ida w o)
        × IsOwned ida (ended ida w o)
  unfolding view ended cifsd_tree_conn_lookup
  ended_refines n fails w _ (logged_off e h u) =
      (clears (λ x. ap (λ l. cifsd_tree_conn_share l x) e ∙ share-none [] x refl), h, u)

  pub serve_refines :
      (n : ℕ) (q : TreeRequest) (w : World I)
      → IsWell ida held (suc n) w
      → IsOwned ida w
      → Step q (view w) (view (serve ida q w))
        × IsWell ida held n (serve ida q w)
        × IsOwned ida (serve ida q w)
  unfolding serve
  serve_refines n (connect env name) w h u =
      let c = connect-IsConnected ida laws held n env name w h u in
      let s = connect_refines n env name w (cifsd_tree_conn_connect ida env name w) c.0 in
      (s.0, s.1, c.1)
  serve_refines n (disconnect id fails) w h u =
      found_refines n id fails w (cifsd_tree_conn_lookup w.sess.tree_conn_list id) (less n w h) u
        refl
  serve_refines n (logoff fails) w h u =
      ended_refines n fails w
        (cifsd_tree_conn_session_logoff ida (length w.sess.tree_conn_list) fails false w)
        (logoff-IsLoggedOff ida laws held n (length w.sess.tree_conn_list) fails false w
          w.sess.tree_conn_list refl (omega arith) (less n w h) u)

  -- Over any requests, whatever the daemon answers, an SMB2 session is a map from ids to shares: a connect
  -- adds a share with the name asked for, in small letters, under a free id, or changes nothing, a
  -- disconnect removes its id and a logoff every id. In the end the ids of the tree connects differ and
  -- are taken, every other id but the reserved one is free, and the count of every share is what its
  -- holders hold.
  pub run_refines :
      (qs : List TreeRequest) (w : World I)
      → IsWell ida held (length qs) w
      → IsOwned ida w
      → Steps qs (view w) (view (run_requests ida qs w))
        × IsWell ida held 0 (run_requests ida qs w)
        × IsOwned ida (run_requests ida qs w)
  unfolding run_requests
  run_refines [] w h u = (done, h, u)
  run_refines (q ∷ qs) w h u =
      let s = serve_refines (length qs) q w h u in
      let r = run_refines qs (serve ida q w) s.1 s.2 in (next s.0 r.0, r.1, r.2)
