-- ===== src/InodeCache/Delete.antt =====
-- When the closing of an open in vfs_cache.c deletes the file.
use cifsd.Base.{
  ℕ, suc, ◌+◌, ◌-◌, ◌≤◌, ◌<◌, ◌≡◌, ◌≢◌, refl, ◌∙◌, ◌⊎◌, inl, inr, Bool, true, false, Option, none,
  some, List, [], ◌∷◌, arith, Option-cases, Bool-cases, ◌==◌,
}
use Prim.Native.String.{String}
use cifsd.InodeCache.{
  Fp, Ci, Cache, cifsd_inode_lookup, cifsd_inode_get, cifsd_inode_put, cifsd_open_fd, take_out,
  cifsd_fd_set_delete_on_close, cifsd_set_inode_pending_delete, cifsd_clear_inode_pending_delete,
  invalidate_delete_on_close, inherit_delete_pending, pass_on, remove_stream, release,
  cifsd_inode_close, close_open, cifsd_close_fd, Operation, open_fd, close_fd, set_delete_on_close,
  set_pending, clear_pending, on_ci, step, run,
}
use cifsd.InodeCache.Count.{IsCounted, IsCountedCi, step-IsCounted}

-- An inode that was created with the wish to delete it: S_DEL_ON_CLS is set.
unfoldable pub IsMarked : Option Ci → Type 0
IsMarked none = ⊥
IsMarked (some ci) = ci.del_on_cls ≡ true

-- Either the mark stays, or the file has just been unlinked.
pub IsKept : Cache → Cache → Type 0
unfolding IsMarked
IsKept before after = IsMarked after.ci ⊎ ((after.ci ≡ none) × (after.unlinks ≡ suc before.unlinks))

none_unmarked : (o : Option Ci) → IsMarked o → o ≢ none
unfolding IsMarked
none_unmarked none m = absurd m
none_unmarked (some ci) m = λ e. ground arith

pass_on-mark : (fp : Fp) (ci : Ci) → (pass_on fp ci).1.del_on_cls ≡ ci.del_on_cls
unfolding pass_on inherit_delete_pending invalidate_delete_on_close
pass_on-mark fp ci = ground arith

remove_stream-mark :
    (fp : Fp) (ci : Ci) (gone : List String)
    → (remove_stream fp ci gone).0.del_on_cls ≡ ci.del_on_cls
unfolding remove_stream
remove_stream-mark fp ci gone = ground arith

release-IsKept : (fp : Fp) (ci : Ci) (c : Cache) → ci.del_on_cls ≡ true → IsKept c (release fp ci c)
unfolding release IsKept IsMarked
release-IsKept fp ci c m = elim (Bool-cases (ci.m_count == 1)) [
  | inl last ↦ rw last (inr (refl, ground arith))
  | inr more ↦ rw more (inl m)
]

close-IsKept :
    (fp : Fp) (ci : Ci) (c : Cache) → ci.del_on_cls ≡ true → IsKept c (cifsd_inode_close fp ci c)
unfolding cifsd_inode_close IsKept
close-IsKept fp ci c m =
    let passed = pass_on fp ci in
    release-IsKept passed.0 (remove_stream passed.0 passed.1 c.removed).0
      (record c { removed = (remove_stream passed.0 passed.1 c.removed).1 })
      (remove_stream-mark passed.0 passed.1 c.removed ∙ pass_on-mark fp ci ∙ m)

close_open-IsKept :
    (found : Option (Fp × List Fp)) (ci : Ci) (c : Cache)
    → c.ci ≡ some ci
    → ci.del_on_cls ≡ true
    → IsKept c (close_open found ci c)
unfolding close_open IsKept IsMarked
close_open-IsKept none ci c e m = rw e (inl m)
close_open-IsKept (some (fp, others)) ci c e m =
    close-IsKept fp (record ci { m_fp_list = others }) c m

get_held :
    (ci : Ci) (c : Cache)
    → c.ci ≡ some ci
    → 0 < ci.m_count
    → cifsd_inode_get c ≡ record ci { m_count = ci.m_count + 1 }
unfolding cifsd_inode_get cifsd_inode_lookup
get_held ci c e h = ground arith

put_shared :
    (ci : Ci) → 1 < ci.m_count → cifsd_inode_put ci ≡ some (record ci { m_count = ci.m_count - 1 })
unfolding cifsd_inode_put
put_shared ci h = ground arith

open-mark :
    (has_id : Bool) (fp : Fp) (ci : Ci) (unlinks : ℕ) (removed : List String)
    → IsCountedCi ci
    → ci.del_on_cls ≡ true
    → IsMarked
        (cifsd_open_fd has_id fp (record { ci = some ci; unlinks = unlinks; removed = removed })).ci
unfolding cifsd_open_fd IsMarked IsCountedCi
open-mark true fp ci unlinks removed i m =
    rw
      (get_held ci (record { ci = some ci; unlinks = unlinks; removed = removed }) refl
        (ground arith))
      m
open-mark false fp ci unlinks removed i m =
    rw
      (
        get_held ci (record { ci = some ci; unlinks = unlinks; removed = removed }) refl
            (ground arith),
        put_shared (record ci { m_count = ci.m_count + 1 }) (ground arith),
      )
      m

step-IsKept :
    (o : Operation) (ci : Ci) (unlinks : ℕ) (removed : List String)
    → IsCountedCi ci
    → ci.del_on_cls ≡ true
    → let before : Cache = record { ci = some ci; unlinks = unlinks; removed = removed } in
      IsKept before (step o before)
unfolding step on_ci cifsd_close_fd IsKept IsMarked cifsd_fd_set_delete_on_close
    cifsd_set_inode_pending_delete cifsd_clear_inode_pending_delete
step-IsKept (open_fd has_id fp) ci u r i m = inl (open-mark has_id fp ci u r i m)
step-IsKept (close_fd a) ci u r i m =
    close_open-IsKept (take_out a ci.m_fp_list) ci
      (record { ci = some ci; unlinks = u; removed = r }) refl m
step-IsKept (set_delete_on_close fp created) ci u r i m = inl (ground arith)
step-IsKept set_pending ci u r i m = inl m
step-IsKept clear_pending ci u r i m = inl m

-- The unlinks that were done are not undone, and one is done only by the last close.
release-unlinks : (fp : Fp) (ci : Ci) (c : Cache) → c.unlinks ≤ (release fp ci c).unlinks
unfolding release
release-unlinks fp ci c = ground arith

close_open-unlinks :
    (found : Option (Fp × List Fp)) (ci : Ci) (c : Cache)
    → c.unlinks ≤ (close_open found ci c).unlinks
unfolding close_open cifsd_inode_close
close_open-unlinks none ci c = omega arith
close_open-unlinks (some (fp, others)) ci c =
    let from : Ci = record ci { m_fp_list = others } in
    let passed = pass_on fp from in
    release-unlinks passed.0 (remove_stream passed.0 passed.1 c.removed).0
      (record c { removed = (remove_stream passed.0 passed.1 c.removed).1 })

close_fd-unlinks : (a : ℕ) (c : Cache) → c.unlinks ≤ (cifsd_close_fd a c).unlinks
unfolding cifsd_close_fd
close_fd-unlinks a c = elim (Option-cases c.ci) [
  | inl e ↦ ground arith
  | inr (ci, e) ↦ ground (arith, close_open-unlinks (take_out a ci.m_fp_list) ci c)
]

step-unlinks : (o : Operation) (c : Cache) → c.unlinks ≤ (step o c).unlinks
unfolding step on_ci cifsd_open_fd
step-unlinks (open_fd has_id fp) c = ground arith
step-unlinks (close_fd a) c = close_fd-unlinks a c
step-unlinks (set_delete_on_close fp created) c = ground arith
step-unlinks set_pending c = ground arith
step-unlinks clear_pending c = ground arith

run-unlinks : (os : List Operation) (c : Cache) → c.unlinks ≤ (run os c).unlinks
unfolding run
run-unlinks [] c = omega arith
run-unlinks (o ∷ os) c = omega (arith, step-unlinks o c, run-unlinks os (step o c))

keeps_on : (o : Operation) (c : Cache) → IsCounted c.ci → IsMarked c.ci → IsKept c (step o c)
unfolding IsMarked IsCounted
keeps_on o c i m = go c.ci c.unlinks c.removed i m
  where
    go :
        (ci : Option Ci) (unlinks : ℕ) (removed : List String)
        → IsCounted ci
        → IsMarked ci
        → let before : Cache = record { ci = ci; unlinks = unlinks; removed = removed } in
          IsKept before (step o before)
    go none u r i m = absurd m
    go (some ci) u r i m = step-IsKept o ci u r i m

-- A file that was created to be deleted on close, its opens counted, has been unlinked when it is no
-- longer cached: whatever is opened, closed and wished for in between, its mark is not lost.
pub created_deleted :
    (os : List Operation) (c : Cache)
    → IsCounted c.ci
    → IsMarked c.ci
    → (run os c).ci ≡ none
    → c.unlinks < (run os c).unlinks
unfolding run IsKept
created_deleted [] c i m e = absurd (none_unmarked c.ci m e)
created_deleted (o ∷ os) c i m e = elim (keeps_on o c i m) [
  | inl still ↦
      ground (arith, created_deleted os (step o c) (step-IsCounted o c i) still e, step-unlinks o c)
  | inr (_, gone) ↦ ground (arith, run-unlinks os (step o c))
]
