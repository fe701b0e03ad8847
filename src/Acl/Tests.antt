-- ===== src/Acl/Tests.antt =====
-- A chmod to 0751 of a regular file of a Unix user and group.
use cifsd.Base.{ℕ, [], ◌∷◌}
use cifsd.Acl.{Sid}

abbrev unix_sid : ℕ → Sid
unix_sid kind = record {
  revision = 1;
  authority = 0 ∷ 0 ∷ 0 ∷ 0 ∷ 0 ∷ 22 ∷ [];
  sub_auth = kind ∷ 1000 ∷ [];
}
