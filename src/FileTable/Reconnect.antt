-- ===== src/FileTable/Reconnect.antt =====
-- vfs_cache.c: what a tree disconnect, a logoff and the end of a session do to the opens of a session,
-- and how a durable open comes back. A null pointer to a connection or a tree connect is 0; `listing`
-- is idr_for_each_entry, the opens of a table in the order of their ids.
pub mod Turn
pub mod Logoff
pub mod Reopen
mod Tests
use cifsd.Base.{
  ℕ, suc, ◌+◌, ◌-◌, Bool, true, false, not, ◌&&◌, ◌||◌, Option, none, some, List, [], ◌∷◌, ◌==◌,
  if◌then◌else◌,
}
use cifsd.FileTable.{
  Idr, FileIds, Tables, open_id_volatile, no_fid, has_file_id, update, open_id, close_file,
}
use cifsd.Oplock.{OpState, idle, ack_wait, closing, OpInfo, smb2_level_batch, handles}

-- The fields of struct cifsd_file that decide whether it can come back.
pub record Open : Type 0 where
  pub conn : ℕ
  pub is_durable : Bool
  pub is_persistent : Bool
  pub is_resilient : Bool
  pub f_opinfo : Option OpInfo

pub record OpenTables (I : Type 0) : Type 0 where
  pub tables : Tables I
  pub opens : ℕ → Open

is_settled : OpState → Bool
is_settled idle = true
is_settled ack_wait = false
is_settled closing = false

keeps_handle : Open → OpInfo → Bool
keeps_handle fp o =
    if fp.is_resilient || fp.is_persistent
    then true
    else if fp.is_durable && (o.is_lease && handles o.o_lease.state)
    then true
    else fp.is_durable && o.level == smb2_level_batch

pub reconnectable_with : Open → Option OpInfo → Bool
unfolding is_settled keeps_handle
reconnectable_with fp none = false
reconnectable_with fp (some o) = if is_settled o.op_state then keeps_handle fp o else false

pub is_reconnectable : Open → Bool
unfolding reconnectable_with
is_reconnectable fp = reconnectable_with fp fp.f_opinfo

detach : FileIds → FileIds
detach f = record f { tcon = 0; volatile_id = no_fid }

set_conn : (ℕ → Open) → ℕ → ℕ → ℕ → Open
set_conn opens a c b = if b == a then record fp { conn = c } else opens b
  where
    fp : Open
    fp = opens a

module _ {I : Type 0} where
  -- `true` keeps the open.
  pub tree_conn_fd_check : ℕ → OpenTables I → ℕ → OpenTables I × Bool
  tree_conn_fd_check tcon s a = (s, not ((s.tables.files a).tcon == tcon))

  -- The open loses its connection, its tree connect and its id.
  pub part : OpenTables I → ℕ → OpenTables I
  unfolding detach set_conn
  part s a = record s {
    tables = record tables { files = update tables.files a detach };
    opens = set_conn s.opens a 0;
  }
    where
      tables : Tables I
      tables = s.tables

  pub session_fd_check : OpenTables I → ℕ → OpenTables I × Bool
  session_fd_check s a = if is_reconnectable (s.opens a) then (part s a, true) else (s, false)

module _ {I : Type 0} (idr : Idr I) where
  pub close_one : OpenTables I → ℕ → OpenTables I
  close_one s a = record s { tables = close_file idr s.tables a }

  -- One turn, and the number of opens closed so far.
  pub close_unless : OpenTables I × Bool → ℕ → ℕ → OpenTables I × ℕ
  unfolding close_one
  close_unless (s, skip) a num = if skip then (s, num) else (close_one s a, suc num)

  pub close_file_table_ids :
      (OpenTables I → ℕ → OpenTables I × Bool) → List ℕ → OpenTables I → ℕ → OpenTables I × ℕ
  unfolding close_unless
  close_file_table_ids skip [] s num = (s, num)
  close_file_table_ids skip (a ∷ rest) s num =
      let (s', num') = close_unless (skip s a) a num in close_file_table_ids skip rest s' num'

  module _ (listing : I → List ℕ) where
    -- The session and `open_files_count`, which does not fall below 0.
    pub cifsd_close_tree_conn_fds : ℕ → OpenTables I → ℕ → OpenTables I × ℕ
    unfolding close_file_table_ids tree_conn_fd_check
    cifsd_close_tree_conn_fds tcon s open_files_count =
        let (s', num) =
          close_file_table_ids (tree_conn_fd_check tcon) (listing s.tables.file_table) s 0 in
        (s', open_files_count - num)

    pub cifsd_close_session_fds : OpenTables I → ℕ → OpenTables I × ℕ
    unfolding close_file_table_ids session_fd_check
    cifsd_close_session_fds s open_files_count =
        let (s', num) = close_file_table_ids session_fd_check (listing s.tables.file_table) s 0 in
        (s', open_files_count - num)

    -- The opens part with their session; the table itself is freed.
    pub cifsd_destroy_file_table : OpenTables I → OpenTables I
    unfolding close_file_table_ids session_fd_check
    cifsd_destroy_file_table s =
        (close_file_table_ids session_fd_check (listing s.tables.file_table) s 0).0

  set_tcon : ℕ → FileIds → FileIds
  set_tcon t f = record f { tcon = t }

  attach : OpenTables I → ℕ → ℕ → ℕ → OpenTables I
  unfolding set_conn set_tcon
  attach s a conn tcon = record s {
    tables = record tables { files = update tables.files a (set_tcon tcon) };
    opens = set_conn s.opens a conn;
  }
    where
      tables : Tables I
      tables = s.tables

  -- An id was given, or the open stays without a connection.
  settle_reopen : ℕ → OpenTables I → OpenTables I × Bool
  unfolding attach
  settle_reopen a s =
      if has_file_id (s.tables.files a).volatile_id then (s, true) else (attach s a 0 0, false)

  -- An open that is not durable, or still has a connection, a tree connect or an id.
  refuses : OpenTables I → ℕ → Bool
  refuses s a =
      if not (s.opens a).is_durable
        || (not ((s.opens a).conn == 0) || not ((s.tables.files a).tcon == 0))
      then true
      else has_file_id (s.tables.files a).volatile_id

  take_id : OpenTables I → ℕ → OpenTables I
  take_id s a = record s { tables = (open_id idr open_id_volatile s.tables a).0 }

  -- `false` is -EBADF. `conn` and `tcon` are those of the work, the table that of its session.
  pub cifsd_reopen_durable_fd : ℕ → ℕ → OpenTables I → ℕ → OpenTables I × Bool
  unfolding attach settle_reopen refuses take_id
  cifsd_reopen_durable_fd conn tcon s a =
      if refuses s a then (s, false) else settle_reopen a (take_id (attach s a conn tcon) a)

  -- __cifsd_lookup_fd in the global table
  pub cifsd_lookup_durable_fd : OpenTables I → ℕ → Option ℕ
  cifsd_lookup_durable_fd s id = elim (idr.idr_find s.tables.global_ft id) [
    | none ↦ none
    | some a ↦ if (s.tables.files a).listed then some a else none
  ]
