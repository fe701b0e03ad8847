-- ===== src/ShareMode/Order.antt =====
-- What the order of opens means to cifsd_smb_check_shared_mode of smb_common.c, and durable opens.
use cifsd.Base.{
  ℕ, ◌≡◌, ◌↔◌, refl, sym, inl, inr, Bool, true, false, Option, none, some, [], ◌∷◌, arith,
  Bool-cases,
}
use Prim.Native.String.{String}
use cifsd.ShareMode.{File, drop_durable, cifsd_stream_fd, verdict, cifsd_smb_check_shared_mode}
use cifsd.ShareMode.Compatible.{Agree, SameStream, IsRival, other_stream_iff, check_shared_mode_iff}

Agree-symmetric : (a b : File) → cifsd_stream_fd a ≡ cifsd_stream_fd b → Agree a b → Agree b a
Agree-symmetric a b s (d, inl (p, q)) = absurd (cc)
Agree-symmetric a b s (d, inr (r, w, r', w', d')) = (d', inr (r', w', r, w, d))

SameStream-symmetric : (a b : Option String) → SameStream a b → SameStream b a
SameStream-symmetric none none h = tt
SameStream-symmetric none (some b) h = tt
SameStream-symmetric (some a) none h = tt
SameStream-symmetric (some a) (some b) h = sym h

-- Is `b` refused as the next open behind `a` alone?
abbrev pub refused : File → File → Bool
refused a b = (cifsd_smb_check_shared_mode b.filp b.inode b (a ∷ [])).1

-- Of two opens that are not durable and both or neither of a stream, the second is refused in the
-- one order exactly if it is in the other.
pub open_order_irrelevant :
    (a b : File)
    → a.is_durable ≡ false
    → b.is_durable ≡ false
    → cifsd_stream_fd a ≡ cifsd_stream_fd b
    → (refused a b ≡ false) ↔ (refused b a ≡ false)
open_order_irrelevant a b da db s = (one_way a b da db s, one_way b a db da (sym s))
  where
    one_way :
        (x y : File)
        → x.is_durable ≡ false
        → y.is_durable ≡ false
        → cifsd_stream_fd x ≡ cifsd_stream_fd y
        → refused x y ≡ false
        → refused y x ≡ false
    one_way x y dx dy st e = (check_shared_mode_iff x.filp x.inode x (y ∷ [])).1 (
      λ r. Agree-symmetric x y st (
          ((check_shared_mode_iff y.filp y.inode y (x ∷ [])).0 e).0 (record {
            same_inode = sym r.same_inode;
            other_file = λ p. r.other_file (sym p);
            same_stream = SameStream-symmetric y.stream x.stream r.same_stream;
            not_durable = dx;
            same_attrib = sym r.same_attrib;
          })),
      tt,
    )

durable_verdict :
    (filp inode : ℕ) (curr prev : File)
    → IsRival filp inode curr (record prev { is_durable = false })
    → prev.is_durable ≡ true
    → verdict filp inode curr prev ≡ drop_durable
unfolding verdict
durable_verdict filp inode curr prev r d =
    ground (arith, (other_stream_iff prev.stream curr.stream).1 r.same_stream)

durable-scan :
    (filp inode : ℕ) (curr prev : File)
    → verdict filp inode curr prev ≡ drop_durable
    → cifsd_smb_check_shared_mode filp inode curr (prev ∷ [])
      ≡ (record prev { is_durable = false } ∷ [], false)
unfolding cifsd_smb_check_shared_mode
durable-scan filp inode curr prev e = rw (e, cifsd_smb_check_shared_mode)

-- The first conflicting open takes an earlier open's durability instead of being refused; the next
-- one like it is refused.
pub durable_spared_once :
    (filp inode : ℕ) (curr prev : File)
    → IsRival filp inode curr (record prev { is_durable = false })
    → prev.is_durable ≡ true
    → ¬ Agree prev curr
    → ((cifsd_smb_check_shared_mode filp inode curr (prev ∷ [])).1 ≡ false)
      × ((cifsd_smb_check_shared_mode filp inode curr
            (cifsd_smb_check_shared_mode filp inode curr (prev ∷ [])).0).1
          ≡ true)
unfolding cifsd_stream_fd
durable_spared_once filp inode curr prev r d clash =
    rw (durable-scan filp inode curr prev (durable_verdict filp inode curr prev r d)) (
      refl,
      elim (Bool-cases
          (cifsd_smb_check_shared_mode filp inode curr
            (record prev { is_durable = false } ∷ [])).1) [
              | inl e ↦ e
              | inr e ↦ absurd (clash (((check_shared_mode_iff filp inode curr _).0 e).0 r))
            ],
    )
