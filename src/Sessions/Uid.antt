-- ===== src/Sessions/Uid.antt =====
-- The ids that the sessions get: a free one from 1 on, which is then taken; the other taken ids stay so.
use mathlib.Core.Path.{subst}
use cifsd.Base.{
  ℕ, ◌≡◌, ◌≤◌, ap, sym, ◌∙◌, true, false, none, some, ◌==◌, arith, Bool-cases, Option-cases, inl,
  inr,
}
use cifsd.Ids.{
  Ida, IdaLaws, Acquired, acquired, no_id, unfinished, acquire_id, cifds_acquire_smb1_uid,
}
use cifsd.Ids.Reserved.{Keeps, IsFresh, fresh, none_left, smb2_ids-IsFresh}
use cifsd.Sessions.{SessionFlag, smb1, smb2, other, acquire_uid}

module _ {I : Type 0} (ida : Ida I) where
  -- What a call for an id leaves.
  unfoldable pub Given : I → Acquired I → Type 0
  Given t (acquired id t') =
      (1 ≤ id) × (ida.is_taken t id ≡ false) × (ida.is_taken t' id ≡ true) × Keeps ida t t'
  Given t (no_id t') = Keeps ida t t'
  Given t unfinished = ⊥

  IsFresh-Given : {t : I} {r : ℕ} {a : Acquired I} → IsFresh ida t 1 r a → Given t a
  unfolding Given
  IsFresh-Given (fresh p q f k keeps) = (p, f, k, keeps)
  IsFresh-Given (none_left keeps) = keeps

  module _ (laws : IdaLaws ida) where
    got :
        (t t' : I) (id : ℕ)
        → ida.ida_simple_get t 1 0xfffe ≡ some (id, t')
        → acquire_id ida t 1 0xfffe ≡ acquired id t'
    unfolding acquire_id
    got t t' id e = ground (arith, e)

    got_none : (t : I) → ida.ida_simple_get t 1 0xfffe ≡ none → acquire_id ida t 1 0xfffe ≡ no_id t
    unfolding acquire_id
    got_none t e = ground (arith, e)

    got-Keeps : (t t' : I) (id : ℕ) → ida.ida_simple_get t 1 0xfffe ≡ some (id, t') → Keeps ida t t'
    unfolding Keeps
    got-Keeps t t' id e x h = elim (Bool-cases (x == id)) [
      | inl same ↦
          let p : x ≡ id = ground arith in
          ap (ida.is_taken t') p ∙ laws.get_taken t t' 1 0xfffe id e
      | inr differ ↦ laws.get_other t t' 1 0xfffe id x e (ground arith) ∙ h
    ]

    smb1-Given : (t : I) → Given t (acquire_id ida t 1 0xfffe)
    unfolding Given Keeps
    smb1-Given t = elim (Option-cases (ida.ida_simple_get t 1 0xfffe)) [
      | inl e ↦ subst (Given t) (sym (got_none t e)) (λ x h. h)
      | inr ((id, t'), e) ↦ subst (Given t) (sym (got t t' id e)) (
        (laws.get_range t t' 1 0xfffe id e).0,
        laws.get_free t t' 1 0xfffe id e,
        laws.get_taken t t' 1 0xfffe id e,
        got-Keeps t t' id e,
      )
    ]

    pub acquire_uid-Given : (p : SessionFlag) (t : I) → Given t (acquire_uid ida p t)
    unfolding acquire_uid Given Keeps cifds_acquire_smb1_uid
    acquire_uid-Given smb1 t = smb1-Given t
    acquire_uid-Given smb2 t = IsFresh-Given (smb2_ids-IsFresh ida laws t).1
    acquire_uid-Given other t = λ x h. h
