-- ===== src/Vfs/Tests.antt =====
-- Two chunks of 4096 bytes, the second of which goes beyond the source.
use cifsd.Base.{ℕ, false, Option, none, some, List, [], ◌∷◌}
use cifsd.Vfs.{Chunk, OpenFile, cifsd_vfs_copy_file_ranges}
use cifsd.Vfs.Copy.{IsPrefix, copy_file_ranges-IsPrefix}

abbrev source : OpenFile
source = record { filp = 3; daccess = 1; is_stream = false; locks = [] }

abbrev target : OpenFile
target = record { filp = 4; daccess = 2; is_stream = false; locks = [] }

abbrev two_chunks : List (Chunk × Option ℕ)
two_chunks =
    (record { source_offset = 0; target_offset = 0; size = 4096 }, some 4096)
    ∷ (record { source_offset = 4096; target_offset = 4096; size = 4096 }, some 4096)
    ∷ []

copy_file_ranges-IsPrefix_example :
    IsPrefix source target 5000 two_chunks
      (cifsd_vfs_copy_file_ranges false none [] source target 5000 two_chunks).0
copy_file_ranges-IsPrefix_example =
    copy_file_ranges-IsPrefix source target 5000 two_chunks false none []
