-- ===== src/Oplock/TableTests.antt =====
-- A lease table, and a truncation.
use cifsd.Base.{ℕ, List, All, ◌≡◌, ◌↔◌, ◌⊎◌, refl, inr, true, false, some, none, [], ◌∷◌}
use cifsd.Oplock.{idle, Lease, LeaseCtx, OpInfo}
use cifsd.Oplock.Break.{acknowledge}
use cifsd.Oplock.LeaseTable.{Entry, ClientTable, is_among, find_same_lease_key}
use cifsd.Oplock.LeaseTable.View.{
  TableEvent, held, IsOrderly, disconnected, run, run_held, granted, closed, HeldElsewhere, empty,
  find_same_lease_key_iff,
}
use cifsd.Oplock.BreakAll.{smb_break_all_oplock}
use cifsd.Oplock.BreakAll.Released.{GivenUp, IsLoneReader, break_all_releases}

abbrev nothing : Lease
nothing = record { lease_key = 0; state = 0; new_state = 0; flags = 0; duration = 0 }

abbrev batch : OpInfo
batch = record {
  client_guid = 1;
  is_smb2 = true;
  level = 9;
  op_state = idle;
  breaking_cnt = 0;
  is_lease = false;
  o_lease = nothing;
  open_trunc = false;
}

abbrev request : LeaseCtx
request = record { lease_key = 5; req_state = 3; flags = 0; duration = 0 }

abbrev lease_of_file : ℕ → Entry
lease_of_file inode = record {
  address = inode;
  inode = inode;
  info = record batch { is_lease = true; o_lease = record nothing { lease_key = 5 } };
}

-- The key 5 is granted on the files 1 and 2, and the open of file 1 is closed.
abbrev events : List TableEvent
events = granted (lease_of_file 1) ∷ granted (lease_of_file 2) ∷ closed 1 ∷ disconnected 3 ∷ []

events-IsOrderly : IsOrderly events empty
unfolding IsOrderly held is_among
events-IsOrderly = ((1, refl), tt)

find_same_lease_key_iff_example :
    (ts : List ClientTable) × (run events [] ≡ some ts)
    × ((find_same_lease_key 1 1 (some request) ts ≡ true)
        ↔ HeldElsewhere 1 1 5 (run_held events empty 1))
find_same_lease_key_iff_example = find_same_lease_key_iff events 1 1 request events-IsOrderly

break_all_releases_example :
    All GivenUp (smb_break_all_oplock none ((batch, acknowledge 1 ∷ []) ∷ []))
    ⊎ IsLoneReader
        ((batch, acknowledge 1 ∷ []) ∷ [])
        (smb_break_all_oplock none ((batch, acknowledge 1 ∷ []) ∷ []))
break_all_releases_example =
    break_all_releases none ((batch, acknowledge 1 ∷ []) ∷ [])
      (record { smb2 = refl; no_lease = refl; known = inr (inr (inr refl)) }, tt) (λ _. refl, tt)
