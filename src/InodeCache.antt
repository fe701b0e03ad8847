-- ===== src/InodeCache.antt =====
-- The cached inode of vfs_cache.c: how its opens come and go, and when the file is deleted. The
-- state is that of one file of the file system; an open is a `struct cifsd_file` with a number for
-- its address, and the two effects on the file system are recorded.

pub mod Count
pub mod Delete
pub mod Unlink
mod Tests
use cifsd.Base.{
  ℕ, suc, ◌+◌, ◌-◌, Bool, true, false, not, ◌&&◌, ◌||◌, Option, none, some, List, [], ◌∷◌, leb,
  ◌==◌, if◌then◌else◌, is_some,
}
use Prim.Native.String.{String}

pub record Fp : Type 0 where
  pub address : ℕ
  pub tcon : ℕ
  pub stream : Option String
  pub delete_on_close : Bool

-- struct cifsd_inode; the three flags are the bits of `m_flags`, the newest open stands first.
pub record Ci : Type 0 where
  pub m_count : ℕ
  pub del_pending : Bool
  pub del_on_cls : Bool
  pub del_on_cls_stream : Bool
  pub m_fp_list : List Fp

-- What the hash table holds for the inode, the calls of cifsd_vfs_unlink, and the streams that were
-- removed.
pub record Cache : Type 0 where
  pub ci : Option Ci
  pub unlinks : ℕ
  pub removed : List String

pub data InodeStatus : Type 0 where
  status_ok status_unknown status_pending_delete : InodeStatus

-- cifsd_inode_init; `m_count` starts at the caller's reference.
pub cifsd_inode_init : Ci
cifsd_inode_init = record {
  m_count = 1;
  del_pending = false;
  del_on_cls = false;
  del_on_cls_stream = false;
  m_fp_list = [];
}

-- __cifsd_inode_lookup: an entry whose count has dropped to 0 is not taken again.
pub cifsd_inode_lookup : Option Ci → Option Ci
cifsd_inode_lookup none = none
cifsd_inode_lookup (some ci) =
    if ci.m_count == 0 then none else some (record ci { m_count = ci.m_count + 1 })

pub cifsd_inode_get : Cache → Ci
unfolding cifsd_inode_lookup
cifsd_inode_get c = elim (cifsd_inode_lookup c.ci) [ none ↦ cifsd_inode_init | some ci ↦ ci ]

-- atomic_dec_and_test, and the entry that is left.
pub cifsd_inode_put : Ci → Option Ci
cifsd_inode_put ci = if ci.m_count == 1 then none else some (record ci { m_count = ci.m_count - 1 })

pub cifsd_query_inode_status : Cache → InodeStatus
cifsd_query_inode_status c = elim c.ci [
  | none ↦ status_unknown
  | some ci ↦
      if ci.m_count == 0
      then status_unknown
      else if ci.del_pending
      then status_pending_delete
      else status_ok
]

-- cifsd_open_fd; `has_id` tells whether __open_id found an id for the open.
pub cifsd_open_fd : Bool → Fp → Cache → Cache
unfolding cifsd_inode_get cifsd_inode_put
cifsd_open_fd has_id fp c =
    if has_id
    then record c { ci = some (record ci { m_fp_list = fp ∷ ci.m_fp_list }) }
    else record c { ci = cifsd_inode_put ci }
  where
    ci : Ci
    ci = cifsd_inode_get c

-- The open at an address, and the others.
pub take_out : ℕ → List Fp → Option (Fp × List Fp)
take_out a [] = none
take_out a (fp ∷ rest) =
    let later = take_out a rest in
    if fp.address == a
    then some (fp, rest)
    else elim later [ none ↦ none | some (found, others) ↦ some (found, fp ∷ others) ]

pub mark : ℕ → List Fp → List Fp
mark a [] = []
mark a (fp ∷ rest) =
    let later = mark a rest in
    if fp.address == a then record fp { delete_on_close = true } ∷ rest else fp ∷ later

-- cifsd_fd_set_delete_on_close for the open `fp` of the inode; `created` is F_CREATED.
pub cifsd_fd_set_delete_on_close : Fp → Bool → Ci → Ci
unfolding mark
cifsd_fd_set_delete_on_close fp created ci =
    if is_some fp.stream then record ci { del_on_cls_stream = true } else record ci {
      m_fp_list = mark fp.address ci.m_fp_list;
      del_on_cls = if created then true else ci.del_on_cls;
    }

pub cifsd_set_inode_pending_delete : Ci → Ci
cifsd_set_inode_pending_delete ci = record ci { del_pending = true }

pub cifsd_clear_inode_pending_delete : Ci → Ci
cifsd_clear_inode_pending_delete ci = record ci { del_pending = false }

-- The loop of inherit_delete_pending: is there another open that makes the deletion pending?
pub inherits : Fp → Bool → List Fp → Bool
inherits fp on_cls [] = false
inherits fp on_cls (prev ∷ rest) =
    let older = inherits fp on_cls rest in
    older || (not (fp.address == prev.address) && (fp.tcon == prev.tcon || on_cls))

pub inherit_delete_pending : Fp → Ci → Fp × Ci
unfolding inherits
inherit_delete_pending fp ci = (
  record fp { delete_on_close = false },
  record ci { del_pending = ci.del_pending || inherits fp ci.del_on_cls ci.m_fp_list },
)

-- From the oldest open on, up to the one that closes; whether that was met is the second result.
pub invalidate : Fp → List Fp → List Fp × Bool
invalidate fp [] = ([], false)
invalidate fp (prev ∷ rest) =
    let older = invalidate fp rest in
    if older.1 || fp.address == prev.address then (prev ∷ older.0, true) else (
      record prev { delete_on_close = if fp.tcon == prev.tcon then false else prev.delete_on_close }
          ∷ older.0,
      false,
    )

pub invalidate_delete_on_close : Fp → Ci → Ci
unfolding invalidate
invalidate_delete_on_close fp ci = record ci { m_fp_list = (invalidate fp ci.m_fp_list).0 }

-- The first step of __cifsd_inode_close: what becomes of the wish to delete, where others stay.
pub pass_on : Fp → Ci → Fp × Ci
unfolding inherit_delete_pending invalidate_delete_on_close
pass_on fp ci =
    if leb 2 ci.m_count
    then if fp.delete_on_close
      then inherit_delete_pending fp ci
      else (fp, invalidate_delete_on_close fp ci)
    else (fp, ci)

-- The second step: the stream that was to be deleted.
pub remove_stream : Fp → Ci → List String → Ci × List String
remove_stream fp ci gone = elim fp.stream [
  | none ↦ (ci, gone)
  | some name ↦
      if ci.del_on_cls_stream
      then (record ci { del_on_cls_stream = false }, name ∷ gone)
      else (ci, gone)
]

-- The last step: the last reference frees the entry, and deletes the file.
pub release : Fp → Ci → Cache → Cache
release fp ci c =
    if ci.m_count == 1
    then record c {
      ci = none;
      unlinks =
          if ci.del_on_cls || ci.del_pending || fp.delete_on_close
          then suc c.unlinks
          else c.unlinks;
    }
    else record c { ci = some (record ci { m_count = ci.m_count - 1 }) }

pub cifsd_inode_close : Fp → Ci → Cache → Cache
unfolding pass_on remove_stream release
cifsd_inode_close fp ci c = release passed.0 streams.0 (record c { removed = streams.1 })
  where
    passed : Fp × Ci
    passed = pass_on fp ci

    streams : Ci × List String
    streams = remove_stream passed.0 passed.1 c.removed

-- The open that was found, and the others, which its removal leaves on the list.
pub close_open : Option (Fp × List Fp) → Ci → Cache → Cache
unfolding cifsd_inode_close
close_open none ci c = c
close_open (some (fp, others)) ci c = cifsd_inode_close fp (record ci { m_fp_list = others }) c

-- cifsd_close_fd on an open of the inode: an unknown one is refused.
pub cifsd_close_fd : ℕ → Cache → Cache
cifsd_close_fd a c = elim c.ci [ none ↦ c | some ci ↦ close_open (take_out a ci.m_fp_list) ci c ]

pub data Operation : Type 0 where
  open_fd : Bool → Fp → Operation
  close_fd : ℕ → Operation
  set_delete_on_close : Fp → Bool → Operation
  set_pending clear_pending : Operation

pub on_ci : (Ci → Ci) → Cache → Cache
on_ci f c = elim c.ci [ none ↦ c | some ci ↦ record c { ci = some (f ci) } ]

pub step : Operation → Cache → Cache
unfolding on_ci cifsd_fd_set_delete_on_close cifsd_set_inode_pending_delete
    cifsd_clear_inode_pending_delete
step (open_fd has_id fp) c = cifsd_open_fd has_id fp c
step (close_fd a) c = cifsd_close_fd a c
step (set_delete_on_close fp created) c = on_ci (cifsd_fd_set_delete_on_close fp created) c
step set_pending c = on_ci cifsd_set_inode_pending_delete c
step clear_pending c = on_ci cifsd_clear_inode_pending_delete c

pub run : List Operation → Cache → Cache
run [] c = c
run (o ∷ os) c = run os (step o c)
