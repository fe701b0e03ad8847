-- ===== src/Locks/Apply.antt =====
-- The second loop of smb2_lock of smb2pdu.c, which takes the locks, and its rollback.
use cifsd.Base.{
  ℕ, ◌%◌, Bool, false, not, ◌&&◌, ◌||◌, none, some, List, [], ◌∷◌, ◌++◌, ◌⊎◌, inl, inr, is_empty,
  ◌==◌, test_bit, if◌then◌else◌,
}
use cifsd.Locks.{
  LockElement, Lock, Place, invalid_parameter, lock_not_granted, range_not_locked, is_unlck,
  read_locks, any_conflict, remove_lock,
}

-- How the wait for a lock that the kernel has deferred goes: the lock can be tried again, the request was
-- cancelled, the file was closed, or the wait could not be set up.
pub data Waited : Type 0 where
  again cancelled closed no_memory no_async : Waited

-- What vfs_lock_file answers.
pub data VfsAnswer : Type 0 where
  granted not_found failed : VfsAnswer
  deferred : Waited → VfsAnswer

-- The end of a call for a lock, with the answers that are left.
pub data Obtained : Type 0 where
  obtained refused : List VfsAnswer → Obtained
  stopped : Waited → Obtained
  no_answer : Obtained

-- From `retry` on, for a lock that is not an unlock. A lock that is deferred is in the lists while the
-- request waits, and out of them again before the next try.
unfoldable pub obtain : List VfsAnswer → Obtained
obtain [] = no_answer
obtain (granted ∷ answers) = obtained answers
obtain (not_found ∷ answers) = refused answers
obtain (failed ∷ answers) = refused answers
obtain (deferred again ∷ answers) = obtain answers
obtain (deferred cancelled ∷ answers) = stopped cancelled
obtain (deferred closed ∷ answers) = stopped closed
obtain (deferred no_memory ∷ answers) = stopped no_memory
obtain (deferred no_async ∷ answers) = stopped no_async

-- global_lock_list, the locks taken by this request with the last one first, and the flags of the lock
-- before.
pub record Taking : Type 0 where
  pub global : List Lock
  pub rollback : List Lock
  pub prior_lock : ℕ

-- How the request ends, with the global list: success, an error that is answered, no answer as it was
-- cancelled, or an answer without rollback as the file was closed. `corrupted` is what follows where a lock
-- is put into a second list, or freed, while it is in the list of the request: nothing is known then.
pub data LockResult : Type 0 where
  taken : List Lock → LockResult
  error : ℕ → List Lock → LockResult
  silent : List Lock → LockResult
  abandoned : List Lock → LockResult
  unanswered corrupted : LockResult

-- list_del of the lock with the pointer
unfoldable pub drop_lock : ℕ → List Lock → List Lock
drop_lock p [] = []
drop_lock p (l ∷ locks) = let rest = drop_lock p locks in if l.ptr == p then locks else l ∷ rest

-- From `out` on: the locks of the request leave the global list.
unfoldable pub roll_back : List Lock → List Lock → List Lock
unfolding drop_lock
roll_back [] global = global
roll_back (l ∷ locks) global = roll_back locks (drop_lock l.ptr global)

unfoldable pub fails : ℕ → Taking → LockResult
unfolding roll_back
fails status t = error status (roll_back t.rollback t.global)

-- Whether the flags of the lock do not go with those of the lock before.
unfoldable pub is_mixed : ℕ → ℕ → Bool
is_mixed prior flags =
    ((test_bit prior 0 || test_bit prior 1) && test_bit flags 2)
    || (prior == 4 && not (test_bit flags 2))

-- The search in the global list, for an unlock and for a lock that is to fail at once: the list, or the
-- error.
unfoldable pub search_global : Lock → List Lock → ℕ ⊎ List Lock
search_global l global =
    if not (test_bit l.flags 2) && not (test_bit l.flags 4)
    then inr global
    else if is_unlck l.type
    then elim (remove_lock l global) [ none ↦ inl range_not_locked | some g ↦ inr g ]
    else if any_conflict global l
    then inl lock_not_granted
    else inr global

-- What follows the call for a lock; `next` goes on with the list and the answers.
unfoldable pub after_obtain :
    Lock → Taking → (List VfsAnswer → Taking → LockResult) → Obtained → LockResult
unfolding fails roll_back
after_obtain l t next (obtained answers) =
    next answers (record t { global = t.global ++ l ∷ []; rollback = l ∷ t.rollback })
after_obtain l t next (refused answers) = fails lock_not_granted t
after_obtain l t next (stopped cancelled) = silent (roll_back t.rollback t.global)
after_obtain l t next (stopped closed) = abandoned t.global
after_obtain l t next (stopped no_memory) =
    error 0 (roll_back (l ∷ t.rollback) (t.global ++ l ∷ []))
after_obtain l t next (stopped no_async) =
    error 0xC000009A (roll_back (l ∷ t.rollback) (t.global ++ l ∷ []))
after_obtain l t next (stopped again) = unanswered
after_obtain l t next no_answer = unanswered

-- What follows an unlock, where only ENOENT is an error.
unfoldable pub after_unlock :
    Taking → (List VfsAnswer → Taking → LockResult) → List VfsAnswer → LockResult
unfolding fails
after_unlock t next [] = unanswered
after_unlock t next (not_found ∷ answers) = fails 0xC000002A t
after_unlock t next (granted ∷ answers) = next answers t
after_unlock t next (failed ∷ answers) = next answers t
after_unlock t next (deferred w ∷ answers) = next answers t

-- The lock or the unlock itself. A range of length 0 is not given to the kernel, and the jump goes past the
-- list_del that takes the lock out of the list of the request. `unlocks` is a test of the flags that the
-- first loop has left, those of the last element.
unfoldable pub call_vfs :
    Bool → List VfsAnswer → Lock → Taking → (List VfsAnswer → Taking → LockResult) → LockResult
unfolding after_obtain after_unlock obtain
call_vfs unlocks answers l t next =
    if l.zero_len
    then corrupted
    else if unlocks
    then after_unlock t next answers
    else after_obtain l t next (obtain answers)

unfoldable pub checked_lock :
    Bool
    → List VfsAnswer
    → Lock
    → Taking
    → (List VfsAnswer → Taking → LockResult)
    → ℕ ⊎ List Lock
    → LockResult
unfolding call_vfs fails
checked_lock unlocks answers l t next (inl status) =
    fails status (record t { prior_lock = l.flags })
checked_lock unlocks answers l t next (inr global) =
    call_vfs unlocks answers l (record t { global = global; prior_lock = l.flags }) next

unfoldable pub take_locks : Bool → List Lock → List VfsAnswer → Taking → LockResult
unfolding is_mixed search_global checked_lock fails
take_locks unlocks [] answers t = taken t.global
take_locks unlocks (l ∷ locks) answers t =
    let next : List VfsAnswer → Taking → LockResult = take_locks unlocks locks in
    if l.flags % 8 == 0
    then fails invalid_parameter t
    else if is_mixed t.prior_lock l.flags
    then fails invalid_parameter t
    else checked_lock unlocks answers l t next (search_global l t.global)

-- The flags of the last element once the first loop has run.
unfoldable pub last_unlocks : List Lock → Bool
last_unlocks [] = false
last_unlocks (l ∷ []) = test_bit l.flags 2
last_unlocks (l ∷ l' ∷ locks) = last_unlocks (l' ∷ locks)

-- The second loop with what the first one gives.
unfoldable pub after_read : List VfsAnswer → List Lock → ℕ ⊎ List Lock → LockResult
unfolding take_locks last_unlocks
after_read answers global (inl status) = error status global
after_read answers global (inr locks) =
    take_locks (last_unlocks locks) locks answers
      (record { global = global; rollback = []; prior_lock = 0 })

-- From the count of the locks on, for a file that is open.
unfoldable pub smb2_lock : Place → List LockElement → List VfsAnswer → List Lock → LockResult
unfolding after_read
smb2_lock p elements answers global =
    if is_empty elements
    then error invalid_parameter global
    else after_read answers global (read_locks p [] elements)
