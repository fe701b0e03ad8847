-- ===== src/Sessions.antt =====
-- The sessions of the server and their RPC handles: mgmt/user_session.c. A session is known by its
-- address; the kernel's IDA, the memory and the answers of the daemon are arguments. The lists of a
-- session other than its RPC handles are under TreeConnect and FileTable.
pub mod Lists
pub mod Uid
pub mod Rpc
pub mod View
pub mod Sound
pub mod Setup
pub mod Previous
pub mod Login
mod Tests
use cifsd.Base.{
  ℕ, zero, suc, ◌+◌, Bool, true, false, not, ◌&&◌, ◌||◌, Option, none, some, List, [], ◌∷◌, ◌==◌,
  if◌then◌else◌,
}
use cifsd.Ids.{
  Ida, Acquired, acquired, no_id, unfinished, cifds_acquire_smb1_uid, cifds_acquire_smb2_uid,
  cifds_release_id,
}

-- struct cifsd_session, as far as the tables of sessions go
pub record UserSession : Type 0 where
  pub id : ℕ
  pub conn : ℕ

-- session_ida, sessions_table with the last addition first, the list `sessions` of each connection, what
-- stands at an address, and the address that the next allocation gives.
pub record SessionTables (I : Type 0) : Type 0 where
  pub session_ida : I
  pub sessions_table : List ℕ
  pub sessions : ℕ → List ℕ
  pub sess : ℕ → UserSession
  pub next : ℕ

pub data SessionFlag : Type 0 where
  smb1 smb2 other : SessionFlag

-- The memory that a session needs.
pub record Memory : Type 0 where
  pub session : Bool
  pub file_table : Bool
  pub tree_conn_ida : Bool

-- A session, NULL, or an oops: the destruction of a session whose lists are not set_at up.
pub data Created : Type 0 where
  created : ℕ → Created
  null oops : Created

pub without_session : ℕ → List ℕ → List ℕ
without_session a [] = []
without_session a (b ∷ rest) = if b == a then without_session a rest else b ∷ without_session a rest

abbrev pub set_at {ℓ} : {A : Type ℓ} → (ℕ → A) → ℕ → A → ℕ → A
set_at f x v y = if y == x then v else f y

-- __session_lookup and the loop of cifsd_session_lookup
pub session_in : (ℕ → UserSession) → List ℕ → ℕ → Option ℕ
session_in sess [] id = none
session_in sess (a ∷ rest) id = if id == (sess a).id then some a else session_in sess rest id

module _ {I : Type 0} where
  pub cifsd_session_lookup_slowpath : SessionTables I → ℕ → Option ℕ
  unfolding session_in
  cifsd_session_lookup_slowpath s id = session_in s.sess s.sessions_table id

  pub cifsd_session_lookup : SessionTables I → ℕ → ℕ → Option ℕ
  unfolding session_in
  cifsd_session_lookup s conn id = session_in s.sess (s.sessions conn) id

  pub cifsd_session_register : ℕ → ℕ → SessionTables I → SessionTables I
  cifsd_session_register conn a s = record s {
    sess = set_at s.sess a (record old { conn = conn });
    sessions = set_at s.sessions conn (a ∷ s.sessions conn);
  }
    where
      old : UserSession
      old = s.sess a

module _ {I : Type 0} (ida : Ida I) where
  -- cifsd_session_destroy: the id is free again, and the session is in no list.
  pub cifsd_session_destroy : ℕ → SessionTables I → SessionTables I
  unfolding without_session
  cifsd_session_destroy a s = record s {
    session_ida = cifds_release_id ida s.session_ida (s.sess a).id;
    sessions = λ c. without_session a (s.sessions c);
    sessions_table = without_session a s.sessions_table;
  }

  pub acquire_uid : SessionFlag → I → Acquired I
  acquire_uid smb1 t = cifds_acquire_smb1_uid ida t
  acquire_uid smb2 t = cifds_acquire_smb2_uid ida t
  acquire_uid other t = no_id t

  -- What follows the call for an id. A session without an id has the id 0, which is then released.
  pub identified : Bool → SessionTables I → Acquired I → SessionTables I × Created
  unfolding cifsd_session_destroy
  identified tree_ida s unfinished = (s, null)
  identified tree_ida s (no_id t) =
      (cifsd_session_destroy s.next (record s { session_ida = t; next = suc s.next }), null)
  identified tree_ida s (acquired id t) =
      if tree_ida
      then (
        record s {
          session_ida = t;
          sessions_table = s.next ∷ s.sessions_table;
          sess = set_at s.sess s.next (record { id = id; conn = 0 });
          next = suc s.next;
        },
        created s.next,
      )
      else (
        cifsd_session_destroy s.next (record s {
          session_ida = t;
          sess = set_at s.sess s.next (record { id = id; conn = 0 });
          next = suc s.next;
        }),
        null,
      )

  pub session_create : SessionFlag → Memory → SessionTables I → SessionTables I × Created
  unfolding acquire_uid identified
  session_create p m s =
      if not m.session
      then (s, null)
      else if not m.file_table
      then (s, oops)
      else identified m.tree_conn_ida
          (record s { sess = set_at s.sess s.next (record { id = 0; conn = 0 }) })
          (acquire_uid p s.session_ida)

  pub registered : ℕ → SessionTables I × Created → SessionTables I × Created
  registered conn (s, created a) = (cifsd_session_register conn a s, created a)
  registered conn (s, null) = (s, null)
  registered conn (s, oops) = (s, oops)

  pub destroy_previous_session : ℕ → SessionTables I → SessionTables I
  unfolding cifsd_session_lookup_slowpath cifsd_session_destroy
  destroy_previous_session id s = elim (cifsd_session_lookup_slowpath s id) [
    | none ↦ s
    | some a ↦ cifsd_session_destroy a s
  ]

  -- The session that the PreviousSessionId of the request names, if it names one, is destroyed.
  pub without_previous : ℕ → SessionTables I → SessionTables I
  unfolding destroy_previous_session
  without_previous previous s = if previous == 0 then s else destroy_previous_session previous s

  -- What a session setup without a session does.
  pub session_setup : SessionFlag → Memory → ℕ → ℕ → SessionTables I → SessionTables I × Created
  unfolding registered session_create without_previous
  session_setup p m previous conn s =
      registered conn (session_create p m (without_previous previous s))

  -- The loop of cifsd_sessions_deregister: its turns are the entries that the list has.
  pub destroy_all : List ℕ → SessionTables I → SessionTables I
  unfolding cifsd_session_destroy
  destroy_all [] s = s
  destroy_all (a ∷ rest) s = destroy_all rest (cifsd_session_destroy a s)

  pub cifsd_sessions_deregister : ℕ → SessionTables I → SessionTables I
  unfolding destroy_all
  cifsd_sessions_deregister conn s = destroy_all (s.sessions conn) s
