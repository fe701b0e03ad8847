-- ===== src/Ids/Reserved.antt =====
-- What the ids of mgmt/cifsd_ida.c avoid, and that the loops that look for them end.
use cifsd.Base.{
  ℕ, suc, ◌≡◌, ◌≢◌, ◌≤◌, ◌∙◌, sym, ap, inl, inr, true, false, none, some, ◌==◌, Option-cases,
  Bool-cases, arith,
}
use cifsd.Ids.{
  Ida, IdaLaws, Acquired, acquired, no_id, acquire_id, acquire_other, cifds_acquire_smb2_tid,
  cifds_acquire_smb2_uid,
}

module _ {I : Type 0} (ida : Ida I) where
  -- No id is given back.
  unfoldable pub Keeps : I → I → Type 0
  Keeps t t' = (id : ℕ) → ida.is_taken t id ≡ true → ida.is_taken t' id ≡ true

  -- An id from `from` on, not the reserved one, that was free before and is taken now; or an error.
  -- Ids that were taken stay so.
  pub data IsFresh (t : I) (from reserved : ℕ) : Acquired I → Type 0 where
    fresh :
        {id : ℕ} {t' : I}
        → from ≤ id
        → id ≢ reserved
        → ida.is_taken t id ≡ false
        → ida.is_taken t' id ≡ true
        → Keeps t t'
        → IsFresh t from reserved (acquired id t')
    none_left : {t' : I} → Keeps t t' → IsFresh t from reserved (no_id t')

  pub turn_refused :
      (fuel : ℕ) (t : I) (from reserved : ℕ)
      → ida.ida_simple_get t from 0 ≡ none
      → acquire_other ida (suc fuel) t from reserved ≡ no_id t
  unfolding acquire_other acquire_id
  turn_refused fuel t from reserved e = ground arith

  pub turn_again :
      (fuel : ℕ) (t t' : I) (from reserved : ℕ)
      → ida.ida_simple_get t from 0 ≡ some (reserved, t')
      → acquire_other ida (suc fuel) t from reserved ≡ acquire_other ida fuel t' from reserved
  unfolding acquire_other acquire_id
  turn_again fuel t t' from reserved e = ground arith

  pub turn_done :
      (fuel : ℕ) (t t' : I) (from reserved id : ℕ)
      → ida.ida_simple_get t from 0 ≡ some (id, t')
      → id ≢ reserved
      → acquire_other ida (suc fuel) t from reserved ≡ acquired id t'
  unfolding acquire_other acquire_id
  turn_done fuel t t' from reserved id e d = ground arith

module _ {I : Type 0} (ida : Ida I) (laws : IdaLaws ida) where
  get-Keeps :
      (t t' : I) (start end id : ℕ)
      → ida.ida_simple_get t start end ≡ some (id, t')
      → Keeps ida t t'
  unfolding Keeps
  get-Keeps t t' start end id e x h = elim (Bool-cases (x == id)) [
    | inl same ↦ let k = laws.get_taken t t' start end id e in ground arith
    | inr other ↦ laws.get_other t t' start end id x e (λ p. ground arith) ∙ h
  ]

  -- Once the reserved id is taken, one turn is enough.
  second_turn :
      (t t0 : I) (from reserved : ℕ)
      → ((id : ℕ) → id ≢ reserved → ida.is_taken t id ≡ ida.is_taken t0 id)
      → Keeps ida t0 t
      → ida.is_taken t reserved ≡ true
      → IsFresh ida t0 from reserved (acquire_other ida 1 t from reserved)
  unfolding Keeps
  second_turn t t0 from reserved same k h = elim (Option-cases (ida.ida_simple_get t from 0)) [
    | inl e ↦ rw (turn_refused ida 0 t from reserved e) (none_left k)
    | inr ((id, t'), e) ↦
        let free = laws.get_free t t' from 0 id e in
        let differs : id ≢ reserved = λ p. ground (arith, free) in
        rw (turn_done ida 0 t t' from reserved id e differs) (
          fresh (laws.get_range t t' from 0 id e).0 differs (sym (same id differs) ∙ free)
            (laws.get_taken t t' from 0 id e) (λ x h. get-Keeps t t' from 0 id e x (k x h)))
  ]

  -- The ids of SMB2, of a session and of a tree connect, are found in two turns of the loop at most:
  -- an id from the start on that is not the reserved one and was free, or an error of the IDA.
  pub acquire_other-IsFresh :
      (t : I) (from reserved : ℕ)
      → IsFresh ida t from reserved (acquire_other ida 2 t from reserved)
  unfolding Keeps
  acquire_other-IsFresh t from reserved = elim (Option-cases (ida.ida_simple_get t from 0)) [
    | inl e ↦ rw (turn_refused ida 1 t from reserved e) (none_left (λ x h. h))
    | inr ((id, t'), e) ↦ elim (Bool-cases (id == reserved)) [
      | inl same ↦
          let p : id ≡ reserved = ground arith in
          let f : ida.ida_simple_get t from 0 ≡ some (reserved, t') =
            e ∙ ap (λ x. some (x, t')) p in
          rw (turn_again ida 1 t t' from reserved f) (
            second_turn t' t from reserved (λ other. laws.get_other t t' from 0 reserved other f)
              (get-Keeps t t' from 0 reserved f) (laws.get_taken t t' from 0 reserved f))
      | inr other ↦
          let differs : id ≢ reserved = λ p. ground arith in
          rw (turn_done ida 1 t t' from reserved id e differs) (
            fresh (laws.get_range t t' from 0 id e).0 differs (laws.get_free t t' from 0 id e)
              (laws.get_taken t t' from 0 id e) (get-Keeps t t' from 0 id e))
    ]
  ]

  -- The ids that an SMB2 client is given, of its session and of its tree connect, are free ones that
  -- are not reserved (0xfffe and 0xffff), that of a session is not 0, and their loops end.
  pub smb2_ids-IsFresh :
      (t : I)
      → IsFresh ida t 0 0xffff (cifds_acquire_smb2_tid ida t)
        × IsFresh ida t 1 0xfffe (cifds_acquire_smb2_uid ida t)
  unfolding cifds_acquire_smb2_tid cifds_acquire_smb2_uid
  smb2_ids-IsFresh t = (acquire_other-IsFresh t 0 0xffff, acquire_other-IsFresh t 1 0xfffe)
