-- ===== src/Ids/Others.antt =====
-- The ids that a search of mgmt/cifsd_ida.c does not touch.
use cifsd.Base.{
  ℕ, zero, suc, ◌≡◌, ◌∙◌, ◌⊎◌, refl, ap, inl, inr, some, ◌==◌, Option-cases, Bool-cases, arith,
}
use cifsd.Ids.{
  Ida, IdaLaws, Acquired, acquired, no_id, unfinished, acquire_other, cifds_acquire_smb2_tid,
}
use cifsd.Ids.Reserved.{turn_refused, turn_again, turn_done}

-- Of the ids but the one that was found and the reserved one, the same are taken.
abbrev pub Others : {I : Type 0} → Ida I → I → ℕ → Acquired I → Type 0
Others ida t reserved (acquired id t') =
    (x : ℕ) → (x ≡ id) ⊎ (x ≡ reserved) ⊎ (ida.is_taken t' x ≡ ida.is_taken t x)
Others ida t reserved (no_id t') = (x : ℕ) → (x ≡ reserved) ⊎ (ida.is_taken t' x ≡ ida.is_taken t x)
Others ida t reserved unfinished = Unit {0}

module _ {I : Type 0} (ida : Ida I) (laws : IdaLaws ida) where
  -- A turn that found the reserved id.
  reserved_turn :
      (t t' : I) (from reserved x : ℕ)
      → ida.ida_simple_get t from 0 ≡ some (reserved, t')
      → (x ≡ reserved) ⊎ (ida.is_taken t' x ≡ ida.is_taken t x)
  reserved_turn t t' from reserved x e = elim (Bool-cases (x == reserved)) [
    | inl s ↦ inl (ground arith)
    | inr d ↦ inr (laws.get_other t t' from 0 reserved x e (λ q. ground arith))
  ]

  through :
      (t t' : I) (from reserved : ℕ) (a : Acquired I)
      → ida.ida_simple_get t from 0 ≡ some (reserved, t')
      → Others ida t' reserved a
      → Others ida t reserved a
  through t t' from reserved (acquired id t'') e o = λ x.
      elim (reserved_turn t t' from reserved x e) [
        | inl p ↦ inr (inl p)
        | inr same ↦ elim (o x) [
          | inl p ↦ inl p
          | inr (inl p) ↦ inr (inl p)
          | inr (inr p) ↦ inr (inr (p ∙ same))
        ]
      ]
  through t t' from reserved (no_id t'') e o = λ x. elim (reserved_turn t t' from reserved x e) [
    | inl p ↦ inl p
    | inr same ↦ elim (o x) [ inl p ↦ inl p | inr p ↦ inr (p ∙ same) ]
  ]
  through t t' from reserved unfinished e o = tt

  first_turn :
      (t t' : I) (from reserved id : ℕ)
      → ida.ida_simple_get t from 0 ≡ some (id, t')
      → Others ida t reserved (acquired id t')
  first_turn t t' from reserved id e x = elim (Bool-cases (x == id)) [
    | inl s ↦ inl (ground arith)
    | inr d ↦ inr (inr (laws.get_other t t' from 0 id x e (λ q. ground arith)))
  ]

  acquire_other-Others :
      (fuel : ℕ) (t : I) (from reserved : ℕ)
      → Others ida t reserved (acquire_other ida fuel t from reserved)
  acquire_other-Others zero t from reserved = unfold acquire_other in tt
  acquire_other-Others (suc fuel) t from reserved =
      elim (Option-cases (ida.ida_simple_get t from 0)) [
        | inl e ↦ rw (turn_refused ida fuel t from reserved e) (λ x. inr refl)
        | inr ((id, t'), e) ↦ elim (Bool-cases (id == reserved)) [
          | inl same ↦
              let p : id ≡ reserved = ground arith in
              let f : ida.ida_simple_get t from 0 ≡ some (reserved, t') =
                e ∙ ap (λ x. some (x, t')) p in
              rw (turn_again ida fuel t t' from reserved f)
                (through t t' from reserved _ f (acquire_other-Others fuel t' from reserved))
          | inr other ↦
              rw (turn_done ida fuel t t' from reserved id e (λ p. ground arith))
                (first_turn t t' from reserved id e)
        ]
      ]

  pub smb2_tid-Others : (t : I) → Others ida t 0xffff (cifds_acquire_smb2_tid ida t)
  unfolding cifds_acquire_smb2_tid
  smb2_tid-Others t = acquire_other-Others 2 t 0 0xffff
