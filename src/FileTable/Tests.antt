-- ===== src/FileTable/Tests.antt =====
-- Runs of the descriptor tables of vfs_cache.c, with an IDR that has room for one entry.
use cifsd.Base.{ℕ, ◌+◌, ◌≡◌, refl, true, Option, none, some, ◌==◌, if◌then◌else◌, arith}
use cifsd.FileTable.{
  FileIds, Tables, open_id_volatile, open_id_persistent, Work, open_id, cifsd_lookup_fd_slow,
  cifsd_close_fd, no_fid, has_file_id, volatile_answer, persistent_answer, fd_limit_depleted,
  lookup_fd, cifsd_lookup_fd_fast, sanity_check, same_persistent,
}
use cifsd.FileTable.Slot.{slot, slot-IdrLaws}
use cifsd.FileTable.Lookup.{IsConsistent, IsNew, slow_lookup_checked}
use cifsd.FileTable.Limit.{descriptors, Runs, stop, open_new, open_durable, close, runs_conserve}

abbrev fresh_file : FileIds
fresh_file = record { volatile_id = no_fid; persistent_id = no_fid; tcon = 7; listed = true }

-- No file is open; the global table is full.
abbrev start : Tables (Option ℕ)
start = record { file_table = none; global_ft = some 9; fd_limit = 2; files = λ a. fresh_file }

-- The file at address 4 is open under id 0.
abbrev one_open : Tables (Option ℕ)
one_open = record {
  file_table = some 4;
  global_ft = some 9;
  fd_limit = 1;
  files = λ a. if a == 4 then record fresh_file { volatile_id = 0 } else fresh_file;
}

abbrev work : Work
work = record { tcon = 7; compound_fid = no_fid; compound_pfid = no_fid }

one_open-IsConsistent : IsConsistent slot one_open
unfolding IsConsistent
one_open-IsConsistent id a e = ground arith

start-IsConsistent : IsConsistent slot start
unfolding IsConsistent
start-IsConsistent id a e = ground arith

start-IsNew : IsNew slot start 4
unfolding IsNew
start-IsNew id e = ground arith

slow_lookup_checked_example :
    ((one_open.files 4).listed ≡ true)
    × ((one_open.files 4).tcon ≡ work.tcon)
    × ((one_open.files 4).persistent_id ≡ (if has_file_id 0 then no_fid else work.compound_pfid))
unfolding cifsd_lookup_fd_slow cifsd_lookup_fd_fast lookup_fd sanity_check same_persistent
slow_lookup_checked_example = slow_lookup_checked slot one_open work 0 no_fid 4 refl

-- A file is opened, its durable open finds no id, and it is closed.
visit :
    Runs slot start 1
      (cifsd_close_fd slot
        (open_id slot open_id_persistent (open_id slot open_id_volatile start 4).0 4).0
        0).0
unfolding open_id persistent_answer volatile_answer fd_limit_depleted
visit = open_new start 4 1 _ start-IsNew (open_durable _ 4 0 _ (close _ 0 0 _ (stop _)))

runs_conserve_example :
    descriptors slot
      (cifsd_close_fd slot
        (open_id slot open_id_persistent (open_id slot open_id_volatile start 4).0 4).0
        0).0
    ≡ descriptors slot start + 1
runs_conserve_example = runs_conserve slot slot-IdrLaws start 1 _ start-IsConsistent visit
