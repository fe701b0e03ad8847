-- ===== src/FileTable/Limit.antt =====
-- The limit on open files in vfs_cache.c, over any sequence of opens and closes of a session.
use cifsd.Base.{
  ℕ, ◌+◌, ◌-◌, ◌≡◌, ◌⊎◌, inl, inr, true, false, none, some, ◌==◌, if◌then◌else◌, arith,
  Option-cases, Bool-cases,
}
use cifsd.FileTable.{
  no_fid, Idr, IdrLaws, Tables, open_id_volatile, open_id_persistent, has_file_id,
  fd_limit_depleted, fd_limit_close, update, open_id_set, volatile_answer, persistent_answer,
  open_id, lookup_fd, unlist, close_file, cifsd_close_fd,
}
use cifsd.FileTable.Lookup.{IsConsistent, IsNew, closed}

module _ {I : Type 0} (idr : Idr I) where
  -- The descriptors of the limit, free or taken by an entry of the session's table.
  pub descriptors : Tables I → ℕ
  descriptors s = s.fd_limit + idr.entries s.file_table

  abbrev pub failed_durable : Tables I → ℕ → ℕ
  failed_durable s a = if (open_id idr open_id_persistent s a).1 then 0 else 1

  -- A run of a session, with the number of durable opens for which the global table had no id. A
  -- new open is that of a file that was just allocated.
  pub data Runs : Tables I → ℕ → Tables I → Type 0 where
    stop : (s : Tables I) → Runs s 0 s
    open_new :
        (s : Tables I) (a n : ℕ) (s' : Tables I)
        → IsNew idr s a
        → Runs (open_id idr open_id_volatile s a).0 n s'
        → Runs s n s'
    open_durable :
        (s : Tables I) (a n : ℕ) (s' : Tables I)
        → Runs (open_id idr open_id_persistent s a).0 n s'
        → Runs s (failed_durable s a + n) s'
    close :
        (s : Tables I) (id n : ℕ) (s' : Tables I)
        → Runs (cifsd_close_fd idr s id).0 n s'
        → Runs s n s'

module _ {I : Type 0} (idr : Idr I) (laws : IdrLaws idr) where
  open-descriptors :
      (s : Tables I) (a : ℕ)
      → descriptors idr (open_id idr open_id_volatile s a).0 ≡ descriptors idr s
  unfolding open_id volatile_answer fd_limit_depleted fd_limit_close descriptors
  open-descriptors s a = elim (Option-cases (idr.idr_alloc s.file_table a)) [
    | inl n ↦ ground arith
    | inr ((id, t), f) ↦ ground (arith, laws.entries_alloc s.file_table t a id f)
  ]

  durable-descriptors :
      (s : Tables I) (a : ℕ)
      → descriptors idr (open_id idr open_id_persistent s a).0
        ≡ descriptors idr s + failed_durable idr s a
  unfolding open_id persistent_answer fd_limit_close descriptors failed_durable
  durable-descriptors s a = elim (Option-cases (idr.idr_alloc s.global_ft a)) [
    | inl n ↦ ground arith
    | inr ((id, t), f) ↦ ground arith
  ]

  close-descriptors :
      (s : Tables I) (id : ℕ)
      → IsConsistent idr s
      → descriptors idr (cifsd_close_fd idr s id).0 ≡ descriptors idr s
  unfolding descriptors cifsd_close_fd
  close-descriptors s id k = elim (Bool-cases (has_file_id id)) [
    | inr foreign ↦ ground arith
    | inl h ↦ elim (Option-cases (lookup_fd idr s id)) [
      | inl n ↦ ground arith
      | inr (a, f) ↦
          let (found, c, t, l, _) = closed idr laws s id a k h f in
          ground (arith, laws.entries_remove s.file_table a id found)
    ]
  ]

  -- A table with one more entry, for the open whose id was set.
  added-IsConsistent :
      (s : Tables I) (a id limit : ℕ) (t : I)
      → IsConsistent idr s
      → IsNew idr s a
      → idr.idr_alloc s.file_table a ≡ some (id, t)
      → IsConsistent idr (record s {
        file_table = t;
        fd_limit = limit;
        files = update s.files a (open_id_set open_id_volatile id);
      })
  unfolding IsConsistent IsNew update open_id_set
  added-IsConsistent s a id limit t k new f x b e = elim (Bool-cases (x == id)) [
    | inl same ↦ ground (arith, laws.find_alloc s.file_table t a id f)
    | inr other ↦
        let before : idr.idr_find s.file_table x ≡ some b =
          ground (arith, laws.find_alloc_other s.file_table t a id x f) in
        ground (arith, k x b before, new x)
  ]

  failed-IsConsistent :
      (s : Tables I) (a id limit : ℕ)
      → IsConsistent idr s
      → IsNew idr s a
      → IsConsistent idr (record s {
        fd_limit = limit;
        files = update s.files a (open_id_set open_id_volatile id);
      })
  unfolding IsConsistent IsNew update
  failed-IsConsistent s a id limit k new x b e = ground (arith, k x b e, new x)

  open-IsConsistent :
      (s : Tables I) (a : ℕ)
      → IsConsistent idr s
      → IsNew idr s a
      → IsConsistent idr (open_id idr open_id_volatile s a).0
  unfolding open_id volatile_answer fd_limit_depleted
  open-IsConsistent s a k new = elim (Bool-cases (s.fd_limit == 0)) [
    | inl full ↦ rw full (failed-IsConsistent s a no_fid s.fd_limit k new)
    | inr free ↦ elim (Option-cases (idr.idr_alloc s.file_table a)) [
      | inl n ↦
          rw (free, n) (failed-IsConsistent s a no_fid (fd_limit_close (s.fd_limit - 1)) k new)
      | inr ((id, t), f) ↦ rw (free, f) (added-IsConsistent s a id (s.fd_limit - 1) t k new f)
    ]
  ]

  durable-IsConsistent :
      (s : Tables I) (a : ℕ)
      → IsConsistent idr s
      → IsConsistent idr (open_id idr open_id_persistent s a).0
  unfolding open_id persistent_answer IsConsistent open_id_set update
  durable-IsConsistent s a k x b e = elim (Option-cases (idr.idr_alloc s.global_ft a)) [
    | inl n ↦ ground (arith, k x b)
    | inr ((id, t), f) ↦ ground (arith, k x b)
  ]

  removed-IsConsistent :
      (s : Tables I) (id a : ℕ)
      → IsConsistent idr s
      → has_file_id id ≡ true
      → lookup_fd idr s id ≡ some a
      → IsConsistent idr (close_file idr s a)
  unfolding IsConsistent update unlist
  removed-IsConsistent s id a k h f x b e =
      let (_, _, t, _, same_files) = closed idr laws s id a k h f in
      elim (Bool-cases (x == id)) [
        | inl same ↦ ground (arith, laws.find_remove s.file_table id)
        | inr other ↦
            let before : idr.idr_find s.file_table x ≡ some b =
              ground (arith, laws.find_remove_other s.file_table id x) in
            rw same_files (ground (arith, k x b before))
      ]

  close-IsConsistent :
      (s : Tables I) (id : ℕ) → IsConsistent idr s → IsConsistent idr (cifsd_close_fd idr s id).0
  unfolding cifsd_close_fd
  close-IsConsistent s id k = elim (Bool-cases (has_file_id id)) [
    | inr foreign ↦ rw (unchanged s id (inl foreign)) k
    | inl h ↦ elim (Option-cases (lookup_fd idr s id)) [
      | inl n ↦ rw (unchanged s id (inr n)) k
      | inr (a, f) ↦ rw (closed idr laws s id a k h f).1 (removed-IsConsistent s id a k h f)
    ]
  ]
    where
      unchanged :
          (s : Tables I) (id : ℕ)
          → (has_file_id id ≡ false) ⊎ (lookup_fd idr s id ≡ none)
          → (cifsd_close_fd idr s id).0 ≡ s
      unchanged s id why = ground arith

  -- Over any run of opens and closes, from a table whose ids are the volatile ids of its files, the
  -- limit counts: the descriptors that are free and those that
  -- the session's table holds are together as many as before, and one more for each durable open for
  -- which the global table had no id.
  pub runs_conserve :
      (s : Tables I) (n : ℕ) (s' : Tables I)
      → IsConsistent idr s
      → Runs idr s n s'
      → descriptors idr s' ≡ descriptors idr s + n
  runs_conserve s n s' k (stop _) = omega arith
  runs_conserve s n s' k (open_new _ a _ _ new r) =
      omega (arith, open-descriptors s a, runs_conserve _ n s' (open-IsConsistent s a k new) r)
  runs_conserve s _ s' k (open_durable _ a m _ r) =
      omega (arith, durable-descriptors s a, runs_conserve _ m s' (durable-IsConsistent s a k) r)
  runs_conserve s n s' k (close _ id _ _ r) =
      omega (arith, close-descriptors s id k, runs_conserve _ n s' (close-IsConsistent s id k) r)
