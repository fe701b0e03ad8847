-- ===== src/InodeCache/Tests.antt =====
-- Runs of the cached inode of vfs_cache.c: a file that two clients open, one of which created it to
-- be deleted on close.
use cifsd.Base.{ap, ◌≡◌, ◌<◌, refl, true, false, some, List, [], ◌∷◌, arith}
use cifsd.InodeCache.{
  Cache, Operation, open_fd, close_fd, clear_pending, step, run, cifsd_close_fd, cifsd_open_fd,
  close_open, take_out,
}
use cifsd.InodeCache.Count.{IsCounted, run-IsCounted}
use cifsd.InodeCache.Delete.{IsMarked, created_deleted}
use cifsd.InodeCache.Unlink.{file_open, uncached}

abbrev created : Cache
created = record {
  ci = some (record {
    m_count = 1;
    del_pending = false;
    del_on_cls = true;
    del_on_cls_stream = false;
    m_fp_list = file_open 1 7 ∷ [];
  });
  unlinks = 0;
  removed = [];
}

abbrev visit : List Operation
visit =
    open_fd true (file_open 2 8)
    ∷ open_fd false (file_open 3 8)
    ∷ close_fd 1
    ∷ clear_pending
    ∷ close_fd 2
    ∷ []

visited : run visit created ≡ record uncached { unlinks = 1 }
unfolding run step cifsd_close_fd cifsd_open_fd close_open take_out
visited = refl

run-IsCounted_example : IsCounted (run visit created).ci
unfolding IsCounted
run-IsCounted_example = run-IsCounted visit created (refl, omega arith)

created_deleted_example : 0 < (run visit created).unlinks
unfolding IsCounted IsMarked
created_deleted_example =
    created_deleted visit created (refl, omega arith) refl (ap (λ c. c.ci) visited)
