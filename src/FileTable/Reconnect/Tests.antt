-- ===== src/FileTable/Reconnect/Tests.antt =====
-- A resilient open at address 4 is the only one of its session; its persistent id is 0.
use cifsd.Base.{ℕ, List, ◌≡◌, refl, inl, true, false, Option, none, some, [], ◌∷◌, arith}
use cifsd.Oplock.{idle, OpInfo}
use cifsd.FileTable.{Work, no_fid, cifsd_lookup_fd_slow}
use cifsd.FileTable.Slot.{slot, slot-IdrLaws}
use cifsd.FileTable.Reconnect.{
  Open, OpenTables, is_reconnectable, cifsd_close_session_fds, cifsd_reopen_durable_fd,
}
use cifsd.FileTable.Reconnect.Turn.{Settled, leads, IsRegistered, IsParted}
use cifsd.FileTable.Reconnect.Logoff.{logoff-Settled}
use cifsd.FileTable.Reconnect.Reopen.{reopen_found}

abbrev opinfo : OpInfo
opinfo = record {
  client_guid = 1;
  is_smb2 = true;
  level = 9;
  op_state = idle;
  breaking_cnt = 0;
  is_lease = false;
  o_lease = record { lease_key = 0; state = 0; new_state = 0; flags = 0; duration = 0 };
  open_trunc = false;
}

abbrev durable : ℕ → Open
durable a = record {
  conn = 3;
  is_durable = true;
  is_persistent = false;
  is_resilient = true;
  f_opinfo = some opinfo;
}

abbrev session : OpenTables (Option ℕ)
session = record {
  tables = record {
    file_table = some 4;
    global_ft = some 4;
    fd_limit = 1;
    files = λ a. record { volatile_id = 0; persistent_id = 0; tcon = 7; listed = true };
  };
  opens = durable;
}

abbrev listing : Option ℕ → List ℕ
listing none = []
listing (some a) = a ∷ []

session-IsRegistered : IsRegistered slot session 4
unfolding IsRegistered leads
session-IsRegistered h = refl

logoff-Settled_example :
    let s' = (cifsd_close_session_fds slot listing session 1).0 in
    Settled slot (is_reconnectable (durable 4)) s' 4 × ((s'.tables.files 4).persistent_id ≡ 0)
logoff-Settled_example =
    logoff-Settled slot slot-IdrLaws listing session 1 4 (session-IsRegistered, tt) (tt, tt)
      (inl refl)

-- The same open behind the logoff, in the empty table of a new session.
abbrev parted : OpenTables (Option ℕ)
parted = record {
  tables = record {
    file_table = none;
    global_ft = some 4;
    fd_limit = 1;
    files = λ a. record { volatile_id = no_fid; persistent_id = 0; tcon = 0; listed = true };
  };
  opens = λ a. record (durable a) { conn = 0 };
}

parted-IsParted : IsParted slot parted 4
unfolding IsRegistered leads
parted-IsParted = record { no_conn = refl; no_tcon = refl; no_id = refl; kept = λ h. refl }

abbrev work : Work
work = record { tcon = 8; compound_fid = no_fid; compound_pfid = no_fid }

reopen_found_example :
    let (s', done) = cifsd_reopen_durable_fd slot 5 8 parted 4 in
    (done ≡ true)
    × (cifsd_lookup_fd_slow slot s'.tables work 0 0 ≡ some 4)
    × ((s'.opens 4).conn ≡ 5)
reopen_found_example =
    reopen_found slot slot-IdrLaws parted work 5 4 0 (some 4) parted-IsParted refl refl
      (omega arith) refl
