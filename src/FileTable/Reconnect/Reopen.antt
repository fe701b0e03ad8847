-- ===== src/FileTable/Reconnect/Reopen.antt =====
-- cifsd_reopen_durable_fd of vfs_cache.c: a durable open comes back under a new volatile id.
use cifsd.Base.{ℕ, ◌-◌, ◌≡◌, ◌<◌, refl, ap, ◌∙◌, true, false, some, arith, if◌then◌else◌}
use cifsd.FileTable.{
  Idr, IdrLaws, open_id_volatile, has_file_id, update, open_id_set, volatile_answer, open_id,
  fd_limit_depleted, lookup_fd, sanity_check, Work, cifsd_lookup_fd_fast, same_persistent,
  cifsd_lookup_fd_slow,
}
use cifsd.FileTable.Reconnect.{
  OpenTables, set_conn, set_tcon, attach, settle_reopen, refuses, take_id, cifsd_reopen_durable_fd,
}
use cifsd.FileTable.Reconnect.Turn.{IsParted}

module _ {I : Type 0} (idr : Idr I) (laws : IdrLaws idr) (s : OpenTables I) (conn tcon a id : ℕ)
    (t : I) where
  -- The open with its new connection, tree connect and id.
  reopened : OpenTables I
  reopened = record {
    tables = record {
      file_table = t;
      global_ft = s.tables.global_ft;
      fd_limit = s.tables.fd_limit - 1;
      files = update (attach idr s a conn tcon).tables.files a (open_id_set open_id_volatile id);
    };
    opens = set_conn s.opens a conn;
  }

  module _ (left : 0 < s.tables.fd_limit)
      (given : idr.idr_alloc s.tables.file_table a ≡ some (id, t)) where
    new_id : has_file_id id ≡ true
    new_id = ground (arith, laws.alloc_bound s.tables.file_table t a id given)

    opened_again :
        open_id idr open_id_volatile (attach idr s a conn tcon).tables a ≡ (reopened.tables, true)
    unfolding reopened attach open_id fd_limit_depleted volatile_answer
    opened_again = ground (arith, given)

    new_file : (reopened.tables.files a).volatile_id ≡ id
    unfolding reopened update open_id_set
    new_file = ground arith

    module _ (parted : IsParted idr s a) (durable : (s.opens a).is_durable ≡ true) where
      not_refused : refuses idr s a ≡ false
      unfolding refuses
      not_refused = ground (arith, parted.no_conn, parted.no_tcon, parted.no_id)

      taken : take_id idr (attach idr s a conn tcon) a ≡ reopened
      unfolding take_id
      taken = ap (λ p. record (attach idr s a conn tcon) { tables = p.0 }) opened_again ∙ whole
        where
          whole : record (attach idr s a conn tcon) { tables = reopened.tables } ≡ reopened
          whole = unfold attach reopened in refl

      settled : settle_reopen idr a reopened ≡ (reopened, true)
      unfolding settle_reopen
      settled = ground (arith, new_file, new_id)

      reopen_lem : cifsd_reopen_durable_fd idr conn tcon s a ≡ (reopened, true)
      unfolding cifsd_reopen_durable_fd
      reopen_lem =
          ap
            (λ b.
              if b
              then (s, false)
              else settle_reopen idr a (take_id idr (attach idr s a conn tcon) a))
            not_refused
          ∙ ap (settle_reopen idr a) taken
          ∙ settled

    reopened_fields :
        ((reopened.tables.files a).tcon ≡ tcon)
        × ((reopened.tables.files a).persistent_id ≡ (s.tables.files a).persistent_id)
        × ((reopened.tables.files a).listed ≡ (s.tables.files a).listed)
        × ((reopened.opens a).conn ≡ conn)
    unfolding reopened attach update set_conn set_tcon open_id_set
    reopened_fields = (ground arith, ground arith, ground arith, ground arith)

    reopened_lookup : (s.tables.files a).listed ≡ true → lookup_fd idr reopened.tables id ≡ some a
    unfolding lookup_fd
    reopened_lookup h =
        let listed = reopened_fields.2 in
        let found : idr.idr_find reopened.tables.file_table id ≡ some a =
          unfold reopened in laws.find_alloc s.tables.file_table t a id given in
        ground (arith, found, listed)

module _ {I : Type 0} (idr : Idr I) (laws : IdrLaws idr) where
  -- A durable open that a logoff has parted comes back: if a descriptor is left and the table of the
  -- session gives an id, the reopen succeeds, and the pair of the new id and the old persistent id leads
  -- the new tree connect to the open, which has the new connection.
  pub reopen_found :
      (s : OpenTables I) (w : Work) (conn a id : ℕ) (t : I)
      → IsParted idr s a
      → (s.opens a).is_durable ≡ true
      → (s.tables.files a).listed ≡ true
      → 0 < s.tables.fd_limit
      → idr.idr_alloc s.tables.file_table a ≡ some (id, t)
      → let (s', done) = cifsd_reopen_durable_fd idr conn w.tcon s a in
        (done ≡ true)
        × (cifsd_lookup_fd_slow idr s'.tables w id (s.tables.files a).persistent_id ≡ some a)
        × ((s'.opens a).conn ≡ conn)
  unfolding cifsd_lookup_fd_slow cifsd_lookup_fd_fast sanity_check same_persistent
  reopen_found s w conn a id t parted durable listed left given =
      let found = reopened_lookup idr laws s conn w.tcon a id t left given listed in
      let (same_tcon, same_pid, _, same_conn) =
        reopened_fields idr laws s conn w.tcon a id t left given in
      let new = new_id idr laws s conn w.tcon a id t left given in
      rw (reopen_lem idr laws s conn w.tcon a id t left given parted durable)
        (refl, ground (arith, found, same_tcon, same_pid, new), same_conn)
