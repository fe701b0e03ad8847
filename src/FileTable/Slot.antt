-- ===== src/FileTable/Slot.antt =====
-- An IDR that has room for one entry, under the id 0.
use cifsd.Base.{ℕ, Option, none, some, ◌==◌, if◌then◌else◌, arith}
use cifsd.FileTable.{Idr, IdrLaws}

abbrev pub slot_find : Option ℕ → ℕ → Option ℕ
slot_find none id = none
slot_find (some a) id = if id == 0 then some a else none

abbrev pub slot_alloc : Option ℕ → ℕ → Option (ℕ × Option ℕ)
slot_alloc none a = some (0, some a)
slot_alloc (some b) a = none

abbrev pub slot_entries : Option ℕ → ℕ
slot_entries none = 0
slot_entries (some a) = 1

abbrev pub slot : Idr (Option ℕ)
slot = record {
  idr_find = slot_find;
  idr_alloc = slot_alloc;
  idr_remove = λ t id. if id == 0 then none else t;
  entries = slot_entries;
}

pub slot-IdrLaws : IdrLaws slot
slot-IdrLaws = record {
  alloc_unused = λ t t' a id e. ground arith;
  alloc_bound = λ t t' a id e. ground arith;
  find_alloc = λ t t' a id e. ground arith;
  find_alloc_other = λ t t' a id other e d. ground arith;
  find_remove = λ t id. ground arith;
  find_remove_other = λ t id other d. ground arith;
  entries_alloc = λ t t' a id e. ground arith;
  entries_remove = λ t a id e. ground arith;
}
