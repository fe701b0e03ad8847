-- ===== src/Ids/Tests.antt =====
-- Ids from an IDA with room for three of them, the reserved ones first.
use cifsd.Base.{ℕ, ◌≡◌, Bool, false, refl}
use cifsd.Ids.{acquired, cifds_acquire_smb2_tid, cifds_acquire_smb2_uid}
use cifsd.Ids.Small.{take, small, small-IdaLaws}
use cifsd.Ids.Reserved.{IsFresh, smb2_ids-IsFresh}

-- The first id is the reserved one of a tree connect, the next one is given out.
second_taken : (t : ℕ → Bool) × (cifds_acquire_smb2_tid small (λ id. false) ≡ acquired 0xfffe t)
unfolding cifds_acquire_smb2_tid
second_taken = (take (take (λ id. false) 0xffff) 0xfffe, refl)

smb2_ids-IsFresh_example :
    IsFresh small (λ id. false) 0 0xffff (cifds_acquire_smb2_tid small (λ id. false))
    × IsFresh small (λ id. false) 1 0xfffe (cifds_acquire_smb2_uid small (λ id. false))
smb2_ids-IsFresh_example = smb2_ids-IsFresh small small-IdaLaws (λ id. false)
