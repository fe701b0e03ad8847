-- ===== src/Acl/Chmod.antt =====
-- The mode that comes back from the list that a chmod writes: cifsacl.c.
use cifsd.Base.{ℕ, suc, ◌+◌, ◌≡◌, ap, false, none, some, List}
use cifsd.Acl.{
  Ace, Parse, read_ace, Sid, same_sid, sid_everyone, sid_authusers, fill_ace_for_sid,
  set_chmod_dacl, parse_ace, parse_aces,
}

-- Owner, group, everyone and the authenticated users have SIDs that compare_sids tells apart.
pub record AreApart (owner group : Sid) : Type 0 where
  pub owner_group : same_sid owner group ≡ false
  pub group_owner : same_sid group owner ≡ false
  pub owner_everyone : same_sid owner sid_everyone ≡ false
  pub everyone_owner : same_sid sid_everyone owner ≡ false
  pub group_everyone : same_sid group sid_everyone ≡ false
  pub everyone_group : same_sid sid_everyone group ≡ false
  pub owner_authusers : same_sid owner sid_authusers ≡ false
  pub group_authusers : same_sid group sid_authusers ≡ false

-- One turn of the walk.
turn :
    (owner group : Sid) (n at : ℕ) (memory : List (ℕ × Ace)) (p : Parse) (a : Ace)
    → read_ace at memory ≡ some a
    → parse_aces owner group (suc n) at memory p
      ≡ parse_aces owner group n (at + a.size) memory (parse_ace owner group a p)
unfolding parse_aces
turn owner group n at memory p a e =
    ap
      (λ o. elim o [
        | none ↦ none
        | some b ↦ parse_aces owner group n (at + b.size) memory (parse_ace owner group b p)
      ])
      e

module _ (owner group : Sid) (apart : AreApart owner group) (mode : ℕ) where
  user_ace : Ace
  user_ace = fill_ace_for_sid owner mode 0x1c0

  group_ace : Ace
  group_ace = fill_ace_for_sid group mode 0x38

  other_ace : Ace
  other_ace = fill_ace_for_sid sid_everyone mode 0x7

  written : List (ℕ × Ace)
  written = (set_chmod_dacl owner group mode).memory
