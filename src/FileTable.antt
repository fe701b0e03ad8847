-- ===== src/FileTable.antt =====
-- The descriptor tables of vfs_cache.c: the ids of open files, the limit on their number, and the
-- lookups that stand between a client's id and a file. The kernel's IDR is a parameter; an open is
-- the address of its `struct cifsd_file`, and `files` is what stands at an address.
pub mod Lookup
pub mod Limit
pub mod Reconnect
mod Slot
mod Tests
use cifsd.Base.{
  ℕ, suc, ◌+◌, ◌-◌, ◌≡◌, ◌≢◌, ◌<◌, Bool, true, false, not, ◌&&◌, Option, none, some, List, [], ◌∷◌,
  ltb, ◌==◌, if◌then◌else◌,
}

-- CIFSD_NO_FID
abbrev pub no_fid : ℕ
no_fid = 4294967295

-- The operations of an IDR, a map from ids to addresses, that the tables use.
pub record Idr (I : Type 0) : Type 0 where
  pub idr_find : I → ℕ → Option ℕ
  pub idr_alloc : I → ℕ → Option (ℕ × I)
  pub idr_remove : I → ℕ → I
  pub entries : I → ℕ

-- What the documentation of the IDR says of them: an id is found where it was put, an id that is
-- given out is not in use and is no more than INT_MAX.
pub record IdrLaws {I : Type 0} (idr : Idr I) : Type 0 where
  pub alloc_unused :
      (t t' : I) (a id : ℕ) → idr.idr_alloc t a ≡ some (id, t') → idr.idr_find t id ≡ none
  pub alloc_bound : (t t' : I) (a id : ℕ) → idr.idr_alloc t a ≡ some (id, t') → id < 2147483648
  pub find_alloc :
      (t t' : I) (a id : ℕ) → idr.idr_alloc t a ≡ some (id, t') → idr.idr_find t' id ≡ some a
  pub find_alloc_other :
      (t t' : I) (a id other : ℕ)
      → idr.idr_alloc t a ≡ some (id, t')
      → other ≢ id
      → idr.idr_find t' other ≡ idr.idr_find t other
  pub find_remove : (t : I) (id : ℕ) → idr.idr_find (idr.idr_remove t id) id ≡ none
  pub find_remove_other :
      (t : I) (id other : ℕ)
      → other ≢ id
      → idr.idr_find (idr.idr_remove t id) other ≡ idr.idr_find t other
  pub entries_alloc :
      (t t' : I) (a id : ℕ)
      → idr.idr_alloc t a ≡ some (id, t')
      → idr.entries t' ≡ suc (idr.entries t)
  pub entries_remove :
      (t : I) (a id : ℕ)
      → idr.idr_find t id ≡ some a
      → idr.entries t ≡ suc (idr.entries (idr.idr_remove t id))

-- The fields of struct cifsd_file that the tables use; `listed` says that the open is on the list of
-- its inode.
pub record FileIds : Type 0 where
  pub volatile_id : ℕ
  pub persistent_id : ℕ
  pub tcon : ℕ
  pub listed : Bool

-- The table of the session, the global one, `fd_limit`, and the files.
pub record Tables (I : Type 0) : Type 0 where
  pub file_table : I
  pub global_ft : I
  pub fd_limit : ℕ
  pub files : ℕ → FileIds

pub data OpenIdType : Type 0 where
  open_id_volatile open_id_persistent : OpenIdType

abbrev pub has_file_id : ℕ → Bool
has_file_id id = ltb id no_fid

-- Whether no descriptor is left, and the counter afterwards.
pub fd_limit_depleted : ℕ → Bool × ℕ
fd_limit_depleted limit = if limit == 0 then (true, limit) else (false, limit - 1)

pub fd_limit_close : ℕ → ℕ
fd_limit_close limit = limit + 1

pub update : (ℕ → FileIds) → ℕ → (FileIds → FileIds) → ℕ → FileIds
update files a f b = if b == a then f (files a) else files b

pub open_id_set : OpenIdType → ℕ → FileIds → FileIds
open_id_set open_id_volatile id fp = record fp { volatile_id = id }
open_id_set open_id_persistent id fp = record fp { persistent_id = id }

-- The work that a lookup is for: its tree connect and the ids of its compound.
pub record Work : Type 0 where
  pub tcon : ℕ
  pub compound_fid : ℕ
  pub compound_pfid : ℕ

pub unlist : FileIds → FileIds
unlist fp = record fp { listed = false }

module _ {I : Type 0} where
  -- What __open_id does with the answer of a table: the id, or none and a descriptor back.
  pub volatile_answer : Tables I → ℕ → Option (ℕ × I) → Tables I × Bool
  unfolding fd_limit_close
  volatile_answer s a none = (
    record s {
      fd_limit = fd_limit_close s.fd_limit;
      files = update s.files a (open_id_set open_id_volatile no_fid);
    },
    false,
  )
  volatile_answer s a (some (id, t)) = (
    record s { file_table = t; files = update s.files a (open_id_set open_id_volatile id) },
    true,
  )

  pub persistent_answer : Tables I → ℕ → Option (ℕ × I) → Tables I × Bool
  unfolding fd_limit_close
  persistent_answer s a none = (
    record s {
      fd_limit = fd_limit_close s.fd_limit;
      files = update s.files a (open_id_set open_id_persistent no_fid);
    },
    false,
  )
  persistent_answer s a (some (id, t)) = (
    record s { global_ft = t; files = update s.files a (open_id_set open_id_persistent id) },
    true,
  )

  pub sanity_check : Tables I → Work → ℕ → Option ℕ
  sanity_check s w a = if (s.files a).tcon == w.tcon then some a else none

  pub same_persistent : Tables I → ℕ → Option ℕ → Option ℕ
  same_persistent s pid none = none
  same_persistent s pid (some a) = if (s.files a).persistent_id == pid then some a else none

module _ {I : Type 0} (idr : Idr I) where
  -- __open_id; `true` is success. Only a volatile id takes a descriptor of the limit.
  pub open_id : OpenIdType → Tables I → ℕ → Tables I × Bool
  unfolding fd_limit_depleted
  open_id open_id_volatile s a =
      if (fd_limit_depleted s.fd_limit).0
      then (record s { files = update s.files a (open_id_set open_id_volatile no_fid) }, false)
      else volatile_answer (record s { fd_limit = (fd_limit_depleted s.fd_limit).1 }) a
          (idr.idr_alloc s.file_table a)
  open_id open_id_persistent s a = persistent_answer s a (idr.idr_alloc s.global_ft a)

  -- The open behind an id, unless it is off the list of its inode.
  pub lookup_fd : Tables I → ℕ → Option ℕ
  lookup_fd s id = elim (idr.idr_find s.file_table id) [
    | none ↦ none
    | some a ↦ if (s.files a).listed then some a else none
  ]

  pub cifsd_lookup_fd_fast : Tables I → Work → ℕ → Option ℕ
  unfolding lookup_fd sanity_check
  cifsd_lookup_fd_fast s w id = elim (lookup_fd s id) [ none ↦ none | some a ↦ sanity_check s w a ]

  -- An id that is none stands for the one of the compound.
  pub cifsd_lookup_fd_slow : Tables I → Work → ℕ → ℕ → Option ℕ
  unfolding cifsd_lookup_fd_fast same_persistent
  cifsd_lookup_fd_slow s w id pid =
      if has_file_id id
      then same_persistent s pid (cifsd_lookup_fd_fast s w id)
      else if has_file_id w.compound_fid
      then same_persistent s w.compound_pfid (cifsd_lookup_fd_fast s w w.compound_fid)
      else none

  pub remove_durable_fd : Tables I → ℕ → Tables I
  remove_durable_fd s a =
      if has_file_id (s.files a).persistent_id
      then record s { global_ft = idr.idr_remove s.global_ft (s.files a).persistent_id }
      else s

  pub remove_fd : Tables I → ℕ → Tables I
  remove_fd s a =
      if has_file_id (s.files a).volatile_id
      then record s {
        file_table = idr.idr_remove s.file_table (s.files a).volatile_id;
        files = update s.files a unlist;
      }
      else s

  -- The part of __cifsd_close_fd that the tables see.
  pub close_file : Tables I → ℕ → Tables I
  unfolding fd_limit_close remove_durable_fd remove_fd
  close_file s a =
      remove_fd (remove_durable_fd (record s { fd_limit = fd_limit_close s.fd_limit }) a) a

  -- cifsd_close_fd; `false` is -EINVAL.
  pub cifsd_close_fd : Tables I → ℕ → Tables I × Bool
  unfolding lookup_fd close_file
  cifsd_close_fd s id =
      if has_file_id id
      then elim (lookup_fd s id) [ none ↦ (s, false) | some a ↦ (close_file s a, true) ]
      else (s, true)
