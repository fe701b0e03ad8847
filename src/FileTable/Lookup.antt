-- ===== src/FileTable/Lookup.antt =====
-- What a lookup by an id in vfs_cache.c gives, behind opens and closes.
use cifsd.Base.{
  ℕ, ◌+◌, ◌-◌, ◌≡◌, ◌≢◌, inl, inr, true, none, some, if◌then◌else◌, arith, Option-cases,
}
use cifsd.FileTable.{
  Idr, IdrLaws, FileIds, Tables, open_id_volatile, has_file_id, fd_limit_depleted, fd_limit_close,
  update, open_id_set, Work, volatile_answer, open_id, lookup_fd, sanity_check,
  cifsd_lookup_fd_fast, same_persistent, cifsd_lookup_fd_slow, remove_durable_fd, unlist, remove_fd,
  close_file, cifsd_close_fd,
}

module _ {I : Type 0} (idr : Idr I) where
  lookup_gone :
      (s : Tables I) (id : ℕ) → idr.idr_find s.file_table id ≡ none → lookup_fd idr s id ≡ none
  unfolding lookup_fd
  lookup_gone s id e = ground arith

  lookup_listed :
      (s : Tables I) (id a : ℕ) → lookup_fd idr s id ≡ some a → (s.files a).listed ≡ true
  unfolding lookup_fd
  lookup_listed s id a e = ground arith

  fast_checked :
      (s : Tables I) (w : Work) (id a : ℕ)
      → cifsd_lookup_fd_fast idr s w id ≡ some a
      → ((s.files a).listed ≡ true) × ((s.files a).tcon ≡ w.tcon)
  unfolding cifsd_lookup_fd_fast sanity_check
  fast_checked s w id a e = ground (arith, lookup_listed s id a)

  -- The open that a client reaches by a pair of ids is one of its own tree connect, still on the list
  -- of its inode, and has the persistent id that the client, or the compound, names.
  pub slow_lookup_checked :
      (s : Tables I) (w : Work) (id pid a : ℕ)
      → cifsd_lookup_fd_slow idr s w id pid ≡ some a
      → ((s.files a).listed ≡ true)
        × ((s.files a).tcon ≡ w.tcon)
        × ((s.files a).persistent_id ≡ (if has_file_id id then pid else w.compound_pfid))
  unfolding cifsd_lookup_fd_slow same_persistent
  slow_lookup_checked s w id pid a e =
      ground (arith, fast_checked s w id a, fast_checked s w w.compound_fid a)

  -- Every id of the table is the volatile id of the open behind it.
  unfoldable pub IsConsistent : Tables I → Type 0
  IsConsistent s = (id a : ℕ) → idr.idr_find s.file_table id ≡ some a → (s.files a).volatile_id ≡ id

  -- An open that is not in the table.
  unfoldable pub IsNew : Tables I → ℕ → Type 0
  IsNew s a = (id : ℕ) → idr.idr_find s.file_table id ≢ some a

pub update_same :
    (files : ℕ → FileIds) (a : ℕ) (f : FileIds → FileIds) → update files a f a ≡ f (files a)
unfolding update
update_same files a f = ground arith

pub update_other :
    (files : ℕ → FileIds) (a b : ℕ) (f : FileIds → FileIds) → b ≢ a → update files a f b ≡ files b
unfolding update
update_other files a b f h = ground arith

module _ {I : Type 0} (idr : Idr I) (laws : IdrLaws idr) where
  pub opened :
      (s : Tables I) (a : ℕ)
      → (open_id idr open_id_volatile s a).1 ≡ true
      → (id : ℕ) × (t : I) × (idr.idr_alloc s.file_table a ≡ some (id, t))
        × ((open_id idr open_id_volatile s a).0 ≡ record s {
          file_table = t;
          fd_limit = s.fd_limit - 1;
          files = update s.files a (open_id_set open_id_volatile id);
        })
  unfolding open_id volatile_answer fd_limit_depleted
  opened s a e = elim (Option-cases (idr.idr_alloc s.file_table a)) [
    | inl n ↦ absurd (ground arith)
    | inr ((id, t), f) ↦ (id, t, f, ground arith)
  ]

  -- A successful open gives an id that was not in use and is a file id, leads back to the open, and
  -- leaves what every other id led to.
  pub opened_found :
      (s : Tables I) (a : ℕ)
      → (open_id idr open_id_volatile s a).1 ≡ true
      → let s' = (open_id idr open_id_volatile s a).0 in
        let id = (s'.files a).volatile_id in
        (has_file_id id ≡ true)
        × (idr.idr_find s.file_table id ≡ none)
        × (idr.idr_find s'.file_table id ≡ some a)
        × ((other : ℕ)
            → other ≢ id
            → idr.idr_find s'.file_table other ≡ idr.idr_find s.file_table other)
  unfolding open_id_set
  opened_found s a e =
      let (id, t, f, g) = opened s a e in
      rw (g, update_same s.files a (open_id_set open_id_volatile id))
        (
          ground (arith, laws.alloc_bound s.file_table t a id f),
          laws.alloc_unused s.file_table t a id f,
          laws.find_alloc s.file_table t a id f,
          λ other. laws.find_alloc_other s.file_table t a id other f,
        )

  -- What a close leaves: one entry less of the session's table, and the other files as they are.
  pub closed :
      (s : Tables I) (id a : ℕ)
      → IsConsistent idr s
      → has_file_id id ≡ true
      → lookup_fd idr s id ≡ some a
      → (idr.idr_find s.file_table id ≡ some a)
        × ((cifsd_close_fd idr s id).0 ≡ close_file idr s a)
        × ((close_file idr s a).file_table ≡ idr.idr_remove s.file_table id)
        × ((close_file idr s a).fd_limit ≡ s.fd_limit + 1)
        × ((close_file idr s a).files ≡ update s.files a unlist)
  unfolding IsConsistent lookup_fd cifsd_close_fd close_file remove_fd remove_durable_fd
      fd_limit_close
  closed s id a k h e =
      let found : idr.idr_find s.file_table id ≡ some a = ground arith in
      let same = k id a found in (found, ground arith, ground arith, ground arith, ground arith)

  -- In a table whose ids are the volatile ids of its files, the id of a file that was closed by it
  -- leads nowhere: a lookup behind the close finds no open.
  pub closed_unknown :
      (s : Tables I) (w : Work) (id pid : ℕ)
      → IsConsistent idr s
      → has_file_id id ≡ true
      → (cifsd_close_fd idr s id).1 ≡ true
      → cifsd_lookup_fd_slow idr (cifsd_close_fd idr s id).0 w id pid ≡ none
  unfolding cifsd_lookup_fd_slow cifsd_lookup_fd_fast same_persistent cifsd_close_fd
  closed_unknown s w id pid k h e = elim (Option-cases (lookup_fd idr s id)) [
    | inl n ↦ absurd (ground arith)
    | inr (a, f) ↦
        let (_, c, t, _, _) = closed s id a k h f in
        ground (
          arith,
          lookup_gone idr (cifsd_close_fd idr s id).0 id
              (rw (c, t) (laws.find_remove s.file_table id)),
        )
  ]
