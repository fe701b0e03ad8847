-- ===== src/InodeCache/Unlink.antt =====
-- Which operation of vfs_cache.c unlinks a file, and a wish to delete that is lost.
use cifsd.Base.{ℕ, suc, ◌≡◌, ◌≢◌, refl, true, false, Option, none, some, List, [], ◌∷◌, arith, ◌==◌}
use Prim.Native.String.{String}
use cifsd.InodeCache.{
  Fp, Ci, Cache, cifsd_inode_init, cifsd_inode_lookup, cifsd_inode_get, cifsd_open_fd, take_out,
  mark, cifsd_fd_set_delete_on_close, invalidate, invalidate_delete_on_close, pass_on,
  remove_stream, release, cifsd_inode_close, close_open, cifsd_close_fd, Operation, open_fd,
  close_fd, set_delete_on_close, set_pending, clear_pending, on_ci, step, run,
}

release-last :
    (fp : Fp) (ci : Ci) (c : Cache)
    → (release fp ci c).unlinks ≢ c.unlinks
    → ((release fp ci c).ci ≡ none) × ((release fp ci c).unlinks ≡ suc c.unlinks)
unfolding release
release-last fp ci c h = ground arith

close_open-last :
    (found : Option (Fp × List Fp)) (ci : Ci) (c : Cache)
    → (close_open found ci c).unlinks ≢ c.unlinks
    → ((close_open found ci c).ci ≡ none) × ((close_open found ci c).unlinks ≡ suc c.unlinks)
unfolding close_open cifsd_inode_close
close_open-last none ci c h = absurd (h refl)
close_open-last (some (fp, others)) ci c h =
    let from : Ci = record ci { m_fp_list = others } in
    let passed = pass_on fp from in
    release-last passed.0 (remove_stream passed.0 passed.1 c.removed).0
      (record c { removed = (remove_stream passed.0 passed.1 c.removed).1 }) h

close_fd-last :
    (a unlinks : ℕ) (removed : List String) (o : Option Ci)
    → let before : Cache = record { ci = o; unlinks = unlinks; removed = removed } in
      (cifsd_close_fd a before).unlinks ≢ unlinks
      → ((cifsd_close_fd a before).ci ≡ none) × ((cifsd_close_fd a before).unlinks ≡ suc unlinks)
unfolding cifsd_close_fd
close_fd-last a u r none h = absurd (h refl)
close_fd-last a u r (some ci) h =
    close_open-last (take_out a ci.m_fp_list) ci (record { ci = some ci; unlinks = u; removed = r })
      h

-- An operation that unlinks the file is a close, unlinks it once, and leaves no open of it: the file
-- goes with its last open.
pub unlinked_at_last :
    (o : Operation) (c : Cache)
    → (step o c).unlinks ≢ c.unlinks
    → ((a : ℕ) × (o ≡ close_fd a)) × ((step o c).ci ≡ none) × ((step o c).unlinks ≡ suc c.unlinks)
unfolding step on_ci cifsd_open_fd
unlinked_at_last (open_fd has_id fp) c h = absurd (h (ground arith))
unlinked_at_last (close_fd a) c h =
    let last = close_fd-last a c.unlinks c.removed c.ci h in ((a, refl), last.0, last.1)
unlinked_at_last (set_delete_on_close fp created) c h = absurd (h (ground arith))
unlinked_at_last set_pending c h = absurd (h (ground arith))
unlinked_at_last clear_pending c h = absurd (h (ground arith))

-- An inode that nobody has open, and an open of its file through a tree connect.
abbrev pub uncached : Cache
uncached = record { ci = none; unlinks = 0; removed = [] }

abbrev pub file_open : ℕ → ℕ → Fp
file_open address tcon = record {
  address = address;
  tcon = tcon;
  stream = none;
  delete_on_close = false;
}

-- The wish to delete an existing file on close is lost when another open of the same tree connect is
-- closed first: after the close of the last open the file is still there.
pub sibling_drops_delete :
    (older newer tcon : ℕ)
    → older ≢ newer
    → let ops : List Operation =
        open_fd true (file_open older tcon)
        ∷ set_delete_on_close (file_open older tcon) false
        ∷ open_fd true (file_open newer tcon)
        ∷ close_fd newer
        ∷ close_fd older
        ∷ [] in
      run ops uncached ≡ uncached
unfolding run step on_ci cifsd_open_fd cifsd_inode_get cifsd_inode_lookup cifsd_inode_init
    cifsd_fd_set_delete_on_close mark cifsd_close_fd close_open cifsd_inode_close take_out pass_on
    invalidate_delete_on_close invalidate remove_stream release
sibling_drops_delete older newer tcon a =
    let same : (x : ℕ) → x == x ≡ true = λ x. ground arith in
    let distinct : newer == older ≡ false = ground arith in
    rw (same older, same newer, same tcon, distinct, same older) refl
