-- ===== src/TreeConnect/Tests.antt =====
-- A session that connects to two shares and logs off, with an IDA that has room for three ids.
use cifsd.Base.{ℕ, ◌≡◌, refl, inl, Bool, true, false, some, List, [], ◌∷◌, map, arith}
use cifsd.Ids.{acquire_id, acquire_other, cifds_acquire_smb2_tid}
use cifsd.Ids.Small.{small, small-IdaLaws}
use cifsd.Shares.{
  Table, same_name, share_lookup, get_share_config, lookup_and_get, keep_or_add, add_share,
  share_config_request, keep_or_request, cifsd_share_config_get,
}
use cifsd.TreeConnect.{
  World, Env, ida_of, cifsd_acquire_tree_conn_id, answered, numbered, shared,
  cifsd_tree_conn_connect,
}
use cifsd.TreeConnect.Count.{uses, IsDistinct}
use cifsd.TreeConnect.Owned.{IsOwned}
use cifsd.TreeConnect.Effects.{IsWell, IsConnected, connect-IsConnected}
use cifsd.TreeConnect.View.{
  TreeRequest, connect, disconnect, logoff, Steps, view, run_requests, run_refines,
}

abbrev no_shares : Table
no_shares = record { shares = []; refcount = λ p. 0; next = 1 }

abbrev start : World (ℕ → Bool)
start = record {
  sess = record {
    tree_conn_list = [];
    tree_conn_ida = λ id. false;
    user = 7;
    smb1 = false;
    smb2 = true;
  };
  table = no_shares;
}

abbrev disk : Env
disk = record {
  tolower = λ c. c;
  share_memory = true;
  answer = some (record { invalid = false; pipe = false; loads = true });
  memory = true;
  response = some (record { status = 0; connection_flags = 0 });
}

abbrev requests : List TreeRequest
requests =
    connect disk (65 ∷ [])
    ∷ connect disk (66 ∷ [])
    ∷ disconnect 5 (λ id. false)
    ∷ logoff (λ id. false)
    ∷ []

start-IsWell : IsWell small (λ p. 0) 4 start
unfolding IsDistinct uses
start-IsWell = record {
  live = record { held = tt; unborn = λ p h. refl };
  counted = λ p. refl;
  room = λ p. omega arith;
  distinct = tt;
  taken = tt;
  smb1_off = refl;
  smb2_on = refl;
}

start-IsOwned : IsOwned small start
start-IsOwned x = inl refl

run_refines_example :
    Steps requests (view start) (view (run_requests small requests start))
    × IsWell small (λ p. 0) 0 (run_requests small requests start)
    × IsOwned small (run_requests small requests start)
run_refines_example =
    run_refines small small-IdaLaws (λ p. 0) requests start start-IsWell start-IsOwned

connect-IsConnected_example :
    IsConnected small
      (λ p. 0)
      3
      (map (λ c. c) (65 ∷ []))
      start
      (cifsd_tree_conn_connect small disk (65 ∷ []) start)
    × IsOwned small (cifsd_tree_conn_connect small disk (65 ∷ []) start).1
connect-IsConnected_example =
    connect-IsConnected small small-IdaLaws (λ p. 0) 3 disk (65 ∷ []) start start-IsWell
      start-IsOwned

-- The first id is the reserved one, which stays taken; the share goes with its last tree connect.
first_id :
    map (λ tc. tc.id) (cifsd_tree_conn_connect small disk (65 ∷ []) start).1.sess.tree_conn_list
    ≡ 0xfffe ∷ []
unfolding cifsd_tree_conn_connect shared numbered answered cifsd_acquire_tree_conn_id ida_of
    cifds_acquire_smb2_tid acquire_other acquire_id same_name share_lookup lookup_and_get
    keep_or_add add_share share_config_request keep_or_request cifsd_share_config_get
    get_share_config
first_id = refl
