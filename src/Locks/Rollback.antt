-- ===== src/Locks/Rollback.antt =====
-- What smb2_lock of smb2pdu.c leaves in the global list: all locks of a request, or none of them.
use mathlib.Core.Path.{subst}
use cifsd.Base.{
  ℕ, suc, ◌+◌, ◌%◌, ◌≡◌, ◌<◌, ◌∙◌, ap, refl, sym, ◌⊎◌, inl, inr, false, List, [], ◌∷◌, ◌++◌,
  append-nil, append_assoc, length-append, All, length, ◌==◌, test_bit, if◌then◌else◌, if_elim,
  arith,
}
use cifsd.Locks.{Lock, invalid_parameter, lock_not_granted, is_unlck}
use cifsd.Locks.Apply.{
  VfsAnswer, Obtained, obtained, refused, stopped, no_answer, again, cancelled, closed, no_memory,
  no_async, obtain, Taking, LockResult, taken, error, silent, abandoned, unanswered, corrupted,
  drop_lock, roll_back, fails, is_mixed, search_global, after_obtain, call_vfs, checked_lock,
  take_locks,
}

unfoldable pub IsBelow : ℕ → Lock → Type 0
IsBelow n l = l.ptr < n

-- A lock and not an unlock, of at least one byte.
unfoldable pub IsLocking : Lock → Type 0
IsLocking l = (test_bit l.flags 2 ≡ false) × (is_unlck l.type ≡ false) × (l.zero_len ≡ false)

-- Locks with the pointers from `n` on, none of them an unlock.
pub data IsNumbered : ℕ → List Lock → Type 0 where
  nothing : {n : ℕ} → IsNumbered n []
  numbered :
      {n : ℕ} {l : Lock} {locks : List Lock}
      → l.ptr ≡ n
      → IsLocking l
      → IsNumbered (suc n) locks
      → IsNumbered n (l ∷ locks)

-- The list is the one before the request and behind it the locks that were taken, of which the last is the
-- first of the rollback list.
pub data IsTaken (before : List Lock) : ℕ → List Lock → List Lock → Type 0 where
  start : {n : ℕ} → All (IsBelow n) before → IsTaken before n before []
  more :
      {n : ℕ} {global rollback : List Lock} {l : Lock}
      → l.ptr ≡ n
      → IsTaken before n global rollback
      → IsTaken before (suc n) (global ++ l ∷ []) (l ∷ rollback)

snoc-IsBelow :
    (n : ℕ) (l : Lock) (global : List Lock)
    → l.ptr ≡ n
    → All (IsBelow n) global
    → All (IsBelow (suc n)) (global ++ l ∷ [])
unfolding IsBelow
snoc-IsBelow n l [] e h = (omega arith, tt)
snoc-IsBelow n l (g ∷ global) e (h, hs) = (omega arith, snoc-IsBelow n l global e hs)

taken-IsBelow :
    (before : List Lock) (n : ℕ) (global rollback : List Lock)
    → IsTaken before n global rollback
    → All (IsBelow n) global
taken-IsBelow before n _ _ (start h) = h
taken-IsBelow before _ _ _ (more {n = n} {global = global} {rollback = rb} {l = l} e t) =
    snoc-IsBelow n l global e (taken-IsBelow before n global rb t)

drop_last :
    (n : ℕ) (l : Lock) (global : List Lock)
    → l.ptr ≡ n
    → All (IsBelow n) global
    → drop_lock l.ptr (global ++ l ∷ []) ≡ global
unfolding IsBelow drop_lock
drop_last n l [] e h = ground arith
drop_last n l (g ∷ global) e (h, hs) =
    let r = drop_last n l global e hs in
    let other : (g.ptr == l.ptr) ≡ false = ground arith in rw other (ap (λ x. g ∷ x) r)

-- The rollback gives the list back.
roll_back-before :
    (before : List Lock) (n : ℕ) (global rollback : List Lock)
    → IsTaken before n global rollback
    → roll_back rollback global ≡ before
unfolding roll_back
roll_back-before before n _ _ (start h) = refl
roll_back-before before _ _ _ (more {n = n} {global = global} {rollback = rb} {l = l} e t) =
    ap (λ g. roll_back rb g) (drop_last n l global e (taken-IsBelow before n global rb t))
    ∙ roll_back-before before n global rb t

-- How a request of `m` locks ends: all of them are in the list, behind those before; or an error or a cancel
-- leaves the list as it was. Only a file that is closed meanwhile keeps what was taken.
pub data IsAllOrNothing (before : List Lock) (m : ℕ) : LockResult → Type 0 where
  all_taken :
      (locks : List Lock) → length locks ≡ m → IsAllOrNothing before m (taken (before ++ locks))
  refused_with : (status : ℕ) → IsAllOrNothing before m (error status before)
  none_taken : IsAllOrNothing before m (silent before)
  file_closed : (global : List Lock) → IsAllOrNothing before m (abandoned global)
  waiting : IsAllOrNothing before m unanswered

split :
    (before : List Lock) (n : ℕ) (global rollback : List Lock)
    → IsTaken before n global rollback
    → (locks : List Lock) × (global ≡ before ++ locks) × (length locks ≡ length rollback)
split before n _ _ (start h) = ([], sym (append-nil before), refl)
split before _ _ _ (more {n = n} {global = global} {rollback = rb} {l = l} e t) =
    let r = split before n global rb t in
    (
      r.0 ++ l ∷ [],
      ap (λ g. g ++ l ∷ []) r.1 ∙ append_assoc before r.0 (l ∷ []),
      length-append r.0 (l ∷ []) ∙ omega (arith, r.2),
    )

fails-before :
    (before : List Lock) (m n status : ℕ) (t : Taking)
    → IsTaken before n t.global t.rollback
    → IsAllOrNothing before m (fails status t)
unfolding fails
fails-before before m n status t h =
    rw (roll_back-before before n t.global t.rollback h) (refused_with status)

-- The rest of the request, once a lock is in the lists, is all or nothing.
abbrev Goes : List Lock → ℕ → ℕ → ℕ → (List VfsAnswer → Taking → LockResult) → Type 0
Goes before m n k next =
    (answers : List VfsAnswer) (t : Taking)
    → IsTaken before (suc n) t.global t.rollback
    → length t.rollback ≡ suc k
    → IsAllOrNothing before m (next answers t)

after-IsAllOrNothing :
    (before : List Lock) (m n : ℕ) (l : Lock) (t : Taking)
    (next : List VfsAnswer → Taking → LockResult) (o : Obtained)
    → l.ptr ≡ n
    → IsTaken before n t.global t.rollback
    → Goes before m n (length t.rollback) next
    → IsAllOrNothing before m (after_obtain l t next o)
unfolding after_obtain
after-IsAllOrNothing before m n l t next (obtained answers) e h g = g answers _ (more e h) refl
after-IsAllOrNothing before m n l t next (refused answers) e h g =
    fails-before before m n lock_not_granted t h
after-IsAllOrNothing before m n l t next (stopped cancelled) e h g =
    rw (roll_back-before before n t.global t.rollback h) none_taken
after-IsAllOrNothing before m n l t next (stopped closed) e h g = file_closed t.global
after-IsAllOrNothing before m n l t next (stopped no_memory) e h g =
    rw (roll_back-before before (suc n) (t.global ++ l ∷ []) (l ∷ t.rollback) (more e h))
      (refused_with 0)
after-IsAllOrNothing before m n l t next (stopped no_async) e h g =
    rw (roll_back-before before (suc n) (t.global ++ l ∷ []) (l ∷ t.rollback) (more e h))
      (refused_with 0xC000009A)
after-IsAllOrNothing before m n l t next (stopped again) e h g = waiting
after-IsAllOrNothing before m n l t next no_answer e h g = waiting

search-cases :
    (l : Lock) (global : List Lock)
    → IsLocking l
    → (search_global l global ≡ inr global) ⊎ (search_global l global ≡ inl lock_not_granted)
unfolding search_global IsLocking
search-cases l global h = ground arith

call_sized :
    (answers : List VfsAnswer) (l : Lock) (t : Taking) (next : List VfsAnswer → Taking → LockResult)
    → IsLocking l
    → after_obtain l t next (obtain answers) ≡ call_vfs false answers l t next
unfolding IsLocking call_vfs
call_sized answers l t next k =
    ap (λ z. if z then corrupted else after_obtain l t next (obtain answers)) (sym k.2)

checked-IsAllOrNothing :
    (before : List Lock) (m n : ℕ) (l : Lock) (answers : List VfsAnswer) (t : Taking)
    (next : List VfsAnswer → Taking → LockResult)
    → l.ptr ≡ n
    → IsLocking l
    → IsTaken before n t.global t.rollback
    → Goes before m n (length t.rollback) next
    → IsAllOrNothing before m (checked_lock false answers l t next (search_global l t.global))
unfolding checked_lock call_vfs
checked-IsAllOrNothing before m n l answers t next e k h g = elim (search-cases l t.global k) [
  | inl s ↦ rw s (
      subst (IsAllOrNothing before m) (call_sized answers l _ next k) (
        after-IsAllOrNothing before m n l (record t { prior_lock = l.flags }) next (obtain answers)
          e h g))
  | inr s ↦ rw s (fails-before before m n lock_not_granted (record t { prior_lock = l.flags }) h)
]

pub take-IsAllOrNothing :
    (before : List Lock) (m n : ℕ) (locks : List Lock) (answers : List VfsAnswer) (t : Taking)
    → IsNumbered n locks
    → IsTaken before n t.global t.rollback
    → length t.rollback + length locks ≡ m
    → IsAllOrNothing before m (take_locks false locks answers t)
unfolding take_locks
take-IsAllOrNothing before m n _ answers t nothing h e =
    let r = split before n t.global t.rollback h in rw r.1 (all_taken r.0 (omega (arith, r.2)))
take-IsAllOrNothing before m n (l ∷ locks) answers t (numbered p k ns) h e =
    if_elim (IsAllOrNothing before m) (l.flags % 8 == 0)
      (fails-before before m n invalid_parameter t h)
      (if_elim (IsAllOrNothing before m) (is_mixed t.prior_lock l.flags)
        (fails-before before m n invalid_parameter t h)
        (checked-IsAllOrNothing before m n l answers t (take_locks false locks) p k h
          (λ answers t' h' c.
            take-IsAllOrNothing before m (suc n) locks answers t' ns h' (omega (arith, c)))))
