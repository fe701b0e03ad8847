-- ===== src/TreeConnect.antt =====
-- The tree connects of a session: mgmt/tree_connect.c, with the ids of mgmt/user_session.c. The kernel's
-- IDA, the memory and the answers of the daemon are arguments.
pub mod Effects
pub mod Leave
pub mod Owned
pub mod View
pub mod Count
mod Tests
use cifsd.Base.{
  ℕ, zero, suc, ◌+◌, ◌≡◌, Bool, true, false, not, ◌||◌, Option, none, some, List, [], ◌∷◌, is_empty,
  ◌==◌, if◌then◌else◌,
}
use cifsd.Ids.{
  Ida, Acquired, acquired, no_id, unfinished, cifds_acquire_smb1_tid, cifds_acquire_smb2_tid,
  cifds_release_id,
}
use cifsd.Shares.{Table, Answer, cifsd_share_config_get, cifsd_share_config_put}

-- struct cifsd_tree_connect; the share is known by its pointer.
pub record TreeConn : Type 0 where
  pub id : ℕ
  pub flags : ℕ
  pub user : ℕ
  pub share_conf : ℕ

-- A session as far as its tree connects go, with the last one first; `smb1` and `smb2` are its flags.
pub record Session (I : Type 0) : Type 0 where
  pub tree_conn_list : List TreeConn
  pub tree_conn_ida : I
  pub user : ℕ
  pub smb1 : Bool
  pub smb2 : Bool

-- The session and the shares of the server.
pub record World (I : Type 0) : Type 0 where
  pub sess : Session I
  pub table : Table

-- struct cifsd_tree_connect_response; `status` 0 is CIFSD_TREE_CONN_STATUS_OK.
pub record TreeResponse : Type 0 where
  pub status : ℕ
  pub connection_flags : ℕ

-- What a connect meets: tolower, the memory for a share and for a tree connect, and the two answers.
pub record Env : Type 0 where
  pub tolower : ℕ → ℕ
  pub share_memory : Bool
  pub answer : Option Answer
  pub memory : Bool
  pub response : Option TreeResponse

-- The field `ret` of struct cifsd_tree_conn_status; `unfinished_id` if the loop for the id has not ended.
pub data Ret : Type 0 where
  ok einval enomem unfinished_id : Ret
  refused : ℕ → Ret

pub cifsd_tree_conn_lookup : List TreeConn → ℕ → Option TreeConn
cifsd_tree_conn_lookup [] id = none
cifsd_tree_conn_lookup (tc ∷ rest) id =
    let later = cifsd_tree_conn_lookup rest id in if tc.id == id then some tc else later

pub cifsd_tree_conn_share : List TreeConn → ℕ → Option ℕ
unfolding cifsd_tree_conn_lookup
cifsd_tree_conn_share tcs id = elim (cifsd_tree_conn_lookup tcs id) [
  | none ↦ none
  | some tc ↦ some tc.share_conf
]

-- list_del of the tree connect with this id
pub list_del : ℕ → List TreeConn → List TreeConn
list_del id [] = []
list_del id (tc ∷ rest) = let later = list_del id rest in if tc.id == id then rest else tc ∷ later

-- What smb2_tree_connect makes of the result: the status of the response.
pub tree_connect_status : Ret → ℕ
tree_connect_status ok = 0
tree_connect_status einval = 0xC000000D
tree_connect_status enomem = 0xC0000017
tree_connect_status unfinished_id = 0xC0000022
tree_connect_status (refused s) =
    if s == 2
    then 0xC00000BE
    else if s == 1
    then 0xC0000017
    else if s == 7 || s == 8
    then 0xC0000022
    else if s == 9
    then 0xC00000CC
    else 0xC0000022

module _ {I : Type 0} (ida : Ida I) where
  ida_of : I → Acquired I → I
  ida_of t (acquired id t') = t'
  ida_of t (no_id t') = t'
  ida_of t unfinished = t

  pub cifsd_acquire_tree_conn_id : Session I → Acquired I
  unfolding ida_of
  cifsd_acquire_tree_conn_id s =
      let t = s.tree_conn_ida in
      let first = if s.smb1 then cifds_acquire_smb1_tid ida t else no_id t in
      if s.smb2 then cifds_acquire_smb2_tid ida (ida_of t first) else first

  abbrev pub with_ida : I → World I → World I
  with_ida t w = record w { sess = record w.sess { tree_conn_ida = t } }

  -- out_error once there is an id: it and the share are given back.
  pub give_up : ℕ → ℕ → World I → World I
  give_up id sc w = record {
    sess = record w.sess { tree_conn_ida = cifds_release_id ida w.sess.tree_conn_ida id };
    table = cifsd_share_config_put sc w.table;
  }

  -- The answer of the daemon to a tree connect with the id `id` to the share `sc`.
  pub answered : Option TreeResponse → ℕ → ℕ → World I → Ret × World I
  unfolding give_up
  answered none id sc w = (einval, give_up id sc w)
  answered (some resp) id sc w =
      if resp.status == 0
      then (
        ok,
        record w {
          sess = record w.sess {
            tree_conn_list =
                record {
                  id = id;
                  flags = resp.connection_flags;
                  user = w.sess.user;
                  share_conf = sc;
                }
                ∷ w.sess.tree_conn_list;
          };
        },
      )
      else (refused resp.status, give_up id sc w)

  -- What follows the call for an id.
  pub numbered : Option TreeResponse → ℕ → World I → Acquired I → Ret × World I
  unfolding answered
  numbered response sc w (acquired id t) = answered response id sc (with_ida t w)
  numbered response sc w (no_id t) =
      (einval, record (with_ida t w) { table = cifsd_share_config_put sc w.table })
  numbered response sc w unfinished = (unfinished_id, w)

  -- What follows the call for the share.
  pub shared : Env → World I → Option ℕ × Table → Ret × World I
  unfolding numbered cifsd_acquire_tree_conn_id
  shared env w (none, t) = (einval, record w { table = t })
  shared env w (some sc, t) =
      if env.memory
      then numbered env.response sc (record w { table = t }) (cifsd_acquire_tree_conn_id w.sess)
      else (enomem, record w { table = cifsd_share_config_put sc t })

  pub cifsd_tree_conn_connect : Env → List ℕ → World I → Ret × World I
  unfolding shared
  cifsd_tree_conn_connect env name w =
      shared env w (cifsd_share_config_get env.tolower env.share_memory env.answer name w.table)

  -- `fails` is whether the daemon's answer for the id is an error.
  pub cifsd_tree_conn_disconnect : (ℕ → Bool) → TreeConn → World I → Bool × World I
  unfolding list_del
  cifsd_tree_conn_disconnect fails tc w = (
    fails tc.id,
    record {
      sess = record w.sess {
        tree_conn_ida = cifds_release_id ida w.sess.tree_conn_ida tc.id;
        tree_conn_list = list_del tc.id w.sess.tree_conn_list;
      };
      table = cifsd_share_config_put tc.share_conf w.table;
    },
  )

  -- The loop, with a bound on its turns: whether one of the answers was an error, or nothing if the loop
  -- has not ended.
  pub cifsd_tree_conn_session_logoff : ℕ → (ℕ → Bool) → Bool → World I → Option (Bool × World I)
  unfolding cifsd_tree_conn_disconnect
  cifsd_tree_conn_session_logoff zero fails ret w =
      if is_empty w.sess.tree_conn_list then some (ret, w) else none
  cifsd_tree_conn_session_logoff (suc fuel) fails ret w = elim w.sess.tree_conn_list [
    | [] ↦ some (ret, w)
    | tc ∷ _ ↦
        let r = cifsd_tree_conn_disconnect fails tc w in
        cifsd_tree_conn_session_logoff fuel fails (ret || r.0) r.1
  ]
