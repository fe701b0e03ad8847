-- ===== src/ShareMode/Tests.antt =====
-- A reader that shares reading only, and a writer that shares all.
use cifsd.Base.{◌≡◌, ◌↔◌, refl, true, false, none, [], ◌∷◌, All}
use cifsd.ShareMode.{
  File, cifsd_smb_check_shared_mode, cifsd_stream_fd, wants_delete, wants_read, wants_write,
  shares_read, shares_write, shares_delete, verdict, compare_modes, other_stream, same_flag,
}
use cifsd.ShareMode.Compatible.{IsRival, Agree, check_shared_mode_iff}
use cifsd.ShareMode.Order.{refused}

abbrev reader : File
reader = record {
  filp = 1;
  inode = 7;
  stream = none;
  daccess = 1;
  saccess = 1;
  is_durable = false;
  attrib_only = false;
}

abbrev writer : File
writer = record {
  filp = 2;
  inode = 7;
  stream = none;
  daccess = 2;
  saccess = 7;
  is_durable = false;
  attrib_only = false;
}

abbrev durable_reader : File
durable_reader = record reader { is_durable = true }

writer-refused : refused reader writer ≡ true
unfolding cifsd_smb_check_shared_mode verdict compare_modes other_stream same_flag cifsd_stream_fd
    wants_delete wants_read wants_write shares_read shares_write shares_delete
writer-refused = refl

check_shared_mode_iff_example :
    ((cifsd_smb_check_shared_mode 2 7 writer (reader ∷ durable_reader ∷ [])).1 ≡ false)
    ↔ All (λ prev. IsRival 2 7 writer prev → Agree prev writer) (reader ∷ durable_reader ∷ [])
check_shared_mode_iff_example = check_shared_mode_iff 2 7 writer (reader ∷ durable_reader ∷ [])
