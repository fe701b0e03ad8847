-- ===== src/Oplock/BreakAll/Released.antt =====
-- After smb_break_all_oplock of oplock.c nobody caches what is cut off.
use cifsd.Base.{
  ℕ, refl, false, ◌≡◌, ◌⊎◌, inl, inr, Bool, true, Option, none, some, List, [], ◌∷◌, arith, All,
  Bool-cases,
}
use cifsd.Oplock.{OpInfo, is_smb2_write}
use cifsd.Oplock.Break.{Event, smb_send_oplock_break_notification}
use cifsd.Oplock.Ack.Laws.{IsSmb2Level}
use cifsd.Oplock.Break.Laws.{IsPlain, reader_break, break_client, oplock_break_completes}
use cifsd.Oplock.Grant.Exclusive.{IsSole, NoWriter}
use cifsd.Oplock.BreakAll.{
  truncating, keep_open, smb_break_all_write_oplock, Owner, is_own, is_unexpected, break_reader,
  smb_break_all_lev_ii_oplock, oplocks_of, first_events, then_readers, smb_break_all_oplock,
}

truncating-IsPlain : (t : Bool) (o : OpInfo) → IsPlain o → IsPlain (truncating t o)
unfolding truncating
truncating-IsPlain t o p = record { smb2 = p.smb2; no_lease = p.no_lease; known = p.known }

reader_gives_up :
    (t : Bool) (own : Option Owner) (o : OpInfo) (es : List Event)
    → IsPlain o
    → NoWriter o
    → (break_reader t own o es).level ≡ 0
unfolding break_reader is_unexpected is_own truncating
reader_gives_up t none o es p w =
    let b = reader_break (truncating t o) es (truncating-IsPlain t o p) w in ground (arith, b)
reader_gives_up t (some own) o es p w =
    let b = reader_break (truncating t o) es (truncating-IsPlain t o p) w in ground (arith, b)

abbrev pub GivenUp : OpInfo → Type 0
GivenUp o = o.level ≡ 0

readers_give_up :
    (t : Bool) (own : Option Owner) (os : List (OpInfo × List Event))
    → All IsPlain (oplocks_of os)
    → All NoWriter (oplocks_of os)
    → All GivenUp (smb_break_all_lev_ii_oplock t own os)
unfolding smb_break_all_lev_ii_oplock
readers_give_up t own [] p w = tt
readers_give_up t own ((o, es) ∷ os) p w =
    (reader_gives_up t own o es p.0 w.0, readers_give_up t own os p.1 w.1)

-- The oplock of the writer, which was alone, is the only one that is left, at level II at most.
pub record IsLoneReader (os : List (OpInfo × List Event)) (after : List OpInfo) : Type 0 where
  pub writer : OpInfo
  pub answers : List Event
  pub alone : os ≡ (writer, answers) ∷ []
  pub wrote : is_smb2_write writer.level ≡ true
  pub reader : OpInfo
  pub left : after ≡ reader ∷ []
  pub same_client : reader.client_guid ≡ writer.client_guid
  pub lowered : (reader.level ≡ 0) ⊎ (reader.level ≡ 1)

read_level : (l : ℕ) → IsSmb2Level l → is_smb2_write l ≡ false → (l ≡ 0) ⊎ (l ≡ 1)
read_level l k w = ground arith

no_others : (os : List (OpInfo × List Event)) → oplocks_of os ≡ [] → os ≡ []
no_others [] e = refl
no_others (o ∷ os) e = ground (arith, e)

broken_writer :
    (o : OpInfo) (es : List Event)
    → IsPlain o
    → is_smb2_write o.level ≡ true
    → All GivenUp (keep_open (smb_send_oplock_break_notification (truncating true o) es) [])
      ⊎ IsLoneReader
          ((o, es) ∷ [])
          (keep_open (smb_send_oplock_break_notification (truncating true o) es) [])
unfolding keep_open truncating
broken_writer o es p w = elim (oplock_break_completes t es q w).2 [
  | inl closed ↦ inl (rw closed tt)
  | inr lower ↦ elim (Bool-cases (smb_send_oplock_break_notification t es).1) [
    | inl closed ↦ inl (rw closed tt)
    | inr there ↦ inr (
        rw there (record {
          writer = o;
          answers = es;
          alone = refl;
          wrote = w;
          reader = (smb_send_oplock_break_notification t es).0;
          left = refl;
          same_client = break_client t es q w;
          lowered = read_level _ (oplock_break_completes t es q w).1.known lower;
        }))
  ]
]
  where
    t : OpInfo
    t = record o { open_trunc = true }

    q : IsPlain t
    q = truncating-IsPlain true o p

alone_released :
    (own : Option Owner) (o : OpInfo) (es : List Event) (os : List (OpInfo × List Event))
    → IsPlain o
    → oplocks_of os ≡ []
    → is_smb2_write o.level ≡ true
    → All GivenUp (smb_break_all_oplock own ((o, es) ∷ os))
      ⊎ IsLoneReader ((o, es) ∷ os) (smb_break_all_oplock own ((o, es) ∷ os))
unfolding smb_break_all_oplock smb_break_all_write_oplock then_readers first_events
alone_released own o es os p e w =
    let e' : os ≡ [] = no_others os e in rw (e', w) (broken_writer o es p w)

-- On an inode with SMB2 oplocks and no leases, where a writer is alone, smb_break_all_oplock leaves no
-- oplock at any open, or only that of the writer, at level II at most, whatever the holders do in the
-- meantime.
pub break_all_releases :
    (own : Option Owner) (os : List (OpInfo × List Event))
    → All IsPlain (oplocks_of os)
    → IsSole (oplocks_of os)
    → All GivenUp (smb_break_all_oplock own os) ⊎ IsLoneReader os (smb_break_all_oplock own os)
unfolding smb_break_all_oplock smb_break_all_write_oplock then_readers first_events
    smb_break_all_lev_ii_oplock truncating
break_all_releases own [] p s = inl tt
break_all_releases own ((o, es) ∷ os) p s = elim (Bool-cases (is_smb2_write o.level)) [
  | inl writer ↦ alone_released own o es os p.0 (s.0 writer) writer
  | inr reader ↦ rw reader (inl (readers_give_up true own ((o, es) ∷ os) p (reader, s.1)))
]
