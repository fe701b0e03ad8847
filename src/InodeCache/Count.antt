-- ===== src/InodeCache/Count.antt =====
-- The reference count of the cached inode of vfs_cache.c, over any sequence of operations.
use cifsd.Base.{
  ℕ, suc, ◌<◌, ◌≡◌, refl, inl, inr, Bool, true, false, Option, none, some, List, [], ◌∷◌, length,
  arith, Option-cases, Bool-cases, ◌==◌, is_some,
}
use Prim.Native.String.{String}
use cifsd.InodeCache.{
  Fp, Ci, Cache, cifsd_inode_init, cifsd_inode_lookup, cifsd_inode_get, cifsd_inode_put,
  cifsd_open_fd, take_out, mark, cifsd_fd_set_delete_on_close, invalidate,
  invalidate_delete_on_close, inherit_delete_pending, cifsd_set_inode_pending_delete,
  cifsd_clear_inode_pending_delete, pass_on, remove_stream, release, cifsd_inode_close, close_open,
  cifsd_close_fd, Operation, open_fd, close_fd, set_delete_on_close, set_pending, clear_pending,
  on_ci, step, run,
}

-- The entry counts its opens, and there is one for as long as there are opens.
unfoldable pub IsCountedCi : Ci → Type 0
IsCountedCi ci = (ci.m_count ≡ length ci.m_fp_list) × (0 < ci.m_count)

unfoldable pub IsCounted : Option Ci → Type 0
unfolding IsCountedCi
IsCounted none = Unit
IsCounted (some ci) = IsCountedCi ci

module _ (unlinks : ℕ) (removed : List String) where
  with_ci : Option Ci → Cache
  with_ci o = record { ci = o; unlinks = unlinks; removed = removed }

  open-IsCounted :
      (has_id : Bool) (fp : Fp) (o : Option Ci)
      → IsCounted o
      → IsCounted (cifsd_open_fd has_id fp (with_ci o)).ci
  unfolding with_ci cifsd_open_fd cifsd_inode_get cifsd_inode_lookup cifsd_inode_put
      cifsd_inode_init IsCounted IsCountedCi
  open-IsCounted true fp none i = (refl, omega arith)
  open-IsCounted false fp none i = tt
  open-IsCounted true fp (some ci) i = ground arith
  open-IsCounted false fp (some ci) i = ground arith

length-take_out :
    (a : ℕ) (fps others : List Fp) (fp : Fp)
    → take_out a fps ≡ some (fp, others)
    → length fps ≡ suc (length others)
unfolding take_out
length-take_out a [] others fp e = ground arith
length-take_out a (p ∷ rest) others fp e = elim (Option-cases (take_out a rest)) [
  | inl n ↦ ground arith
  | inr ((found, left), f) ↦ ground (arith, length-take_out a rest left found f)
]

length-mark : (a : ℕ) (fps : List Fp) → length (mark a fps) ≡ length fps
unfolding mark
length-mark a [] = refl
length-mark a (p ∷ rest) = ground (arith, length-mark a rest)

length-invalidate : (fp : Fp) (fps : List Fp) → length (invalidate fp fps).0 ≡ length fps
unfolding invalidate
length-invalidate fp [] = refl
length-invalidate fp (p ∷ rest) = ground (arith, length-invalidate fp rest)

-- What the first two steps of a close leave of the count and of the list.
pass_on-keeps :
    (fp : Fp) (ci : Ci)
    → ((pass_on fp ci).1.m_count ≡ ci.m_count)
      × (length (pass_on fp ci).1.m_fp_list ≡ length ci.m_fp_list)
unfolding pass_on inherit_delete_pending invalidate_delete_on_close
pass_on-keeps fp ci = ground (arith, length-invalidate fp ci.m_fp_list)

remove_stream-keeps :
    (fp : Fp) (ci : Ci) (gone : List String)
    → ((remove_stream fp ci gone).0.m_count ≡ ci.m_count)
      × ((remove_stream fp ci gone).0.m_fp_list ≡ ci.m_fp_list)
unfolding remove_stream
remove_stream-keeps fp ci gone = ground arith

release-IsCounted :
    (fp : Fp) (ci : Ci) (c : Cache)
    → ci.m_count ≡ suc (length ci.m_fp_list)
    → IsCounted (release fp ci c).ci
unfolding release IsCounted IsCountedCi
release-IsCounted fp ci c e = elim (Bool-cases (ci.m_count == 1)) [
  | inl last ↦ rw last tt
  | inr more ↦ rw more (ground arith, ground arith)
]

close-IsCounted :
    (fp : Fp) (ci : Ci) (c : Cache)
    → ci.m_count ≡ suc (length ci.m_fp_list)
    → IsCounted (cifsd_inode_close fp ci c).ci
unfolding cifsd_inode_close
close-IsCounted fp ci c e =
    let passed = pass_on fp ci in
    release-IsCounted passed.0 (remove_stream passed.0 passed.1 c.removed).0
      (record c { removed = (remove_stream passed.0 passed.1 c.removed).1 })
      (ground (arith, pass_on-keeps fp ci, remove_stream-keeps passed.0 passed.1 c.removed))

close_open-IsCounted :
    (found : Option (Fp × List Fp)) (a : ℕ) (ci : Ci) (c : Cache)
    → IsCountedCi ci
    → c.ci ≡ some ci
    → take_out a ci.m_fp_list ≡ found
    → IsCounted (close_open found ci c).ci
unfolding close_open IsCounted IsCountedCi
close_open-IsCounted none a ci c i e f = rw e i
close_open-IsCounted (some (fp, others)) a ci c i e f =
    close-IsCounted fp (record ci { m_fp_list = others }) c
      (ground (arith, length-take_out a ci.m_fp_list others fp f))

close_fd-IsCounted :
    (a unlinks : ℕ) (removed : List String) (o : Option Ci)
    → IsCounted o
    → IsCounted (cifsd_close_fd a (with_ci unlinks removed o)).ci
unfolding with_ci cifsd_close_fd IsCountedCi IsCounted
close_fd-IsCounted a unlinks removed none i = i
close_fd-IsCounted a unlinks removed (some ci) i =
    close_open-IsCounted (take_out a ci.m_fp_list) a ci _ i refl refl

on_ci-IsCounted :
    (f : Ci → Ci) (unlinks : ℕ) (removed : List String) (o : Option Ci)
    → ((ci : Ci) → IsCountedCi ci → IsCountedCi (f ci))
    → IsCounted o
    → IsCounted (on_ci f (with_ci unlinks removed o)).ci
unfolding on_ci with_ci IsCounted
on_ci-IsCounted f unlinks removed none h i = tt
on_ci-IsCounted f unlinks removed (some ci) h i = h ci i

set_delete-IsCounted :
    (fp : Fp) (created : Bool) (ci : Ci)
    → IsCountedCi ci
    → IsCountedCi (cifsd_fd_set_delete_on_close fp created ci)
unfolding cifsd_fd_set_delete_on_close IsCountedCi
set_delete-IsCounted fp created ci i = elim (Bool-cases (is_some fp.stream)) [
  | inl e ↦ rw e i
  | inr e ↦ rw (e, length-mark fp.address ci.m_fp_list) i
]

pub step-IsCounted : (o : Operation) (c : Cache) → IsCounted c.ci → IsCounted (step o c).ci
unfolding step with_ci cifsd_set_inode_pending_delete cifsd_clear_inode_pending_delete IsCountedCi
step-IsCounted (open_fd has_id fp) c i = open-IsCounted c.unlinks c.removed has_id fp c.ci i
step-IsCounted (close_fd a) c i = close_fd-IsCounted a c.unlinks c.removed c.ci i
step-IsCounted (set_delete_on_close fp created) c i =
    on_ci-IsCounted (cifsd_fd_set_delete_on_close fp created) c.unlinks c.removed c.ci
      (set_delete-IsCounted fp created) i
step-IsCounted set_pending c i =
    on_ci-IsCounted cifsd_set_inode_pending_delete c.unlinks c.removed c.ci (λ ci h. h) i
step-IsCounted clear_pending c i =
    on_ci-IsCounted cifsd_clear_inode_pending_delete c.unlinks c.removed c.ci (λ ci h. h) i

-- Over any sequence of opens, failed opens, closes and wishes to delete, the count of a cached inode
-- stays the number of its opens, and there is an entry only for as long as there is an open.
pub run-IsCounted : (os : List Operation) (c : Cache) → IsCounted c.ci → IsCounted (run os c).ci
unfolding run
run-IsCounted [] c i = i
run-IsCounted (o ∷ os) c i = run-IsCounted os (step o c) (step-IsCounted o c i)
