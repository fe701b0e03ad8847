-- ===== src/Time.antt =====
-- NT times and Unix times: time_wrappers.h. A `time_t` is held as its 64-bit pattern.
pub mod RoundTrip
mod Tests
use cifsd.Base.{ℕ, ◌+◌, ◌*◌, ◌/◌, ◌%◌}
use cifsd.Locks.{add64, sub64, u64_mod}

-- struct timespec
pub record Timespec : Type 0 where
  pub tv_sec : ℕ
  pub tv_nsec : ℕ

abbrev pub ntfs_time_offset : ℕ
ntfs_time_offset = 116444736000000000

pub unix_time_to_nt : Timespec → ℕ
unix_time_to_nt t = add64 (add64 (t.tv_sec * 10000000 % u64_mod) (t.tv_nsec / 100)) ntfs_time_offset

-- do_div leaves the quotient in `t` and gives the remainder.
pub nt_time_to_unix : ℕ → Timespec
nt_time_to_unix ntutc = record { tv_sec = t / 10000000; tv_nsec = t % 10000000 * 100 }
  where
    t : ℕ
    t = sub64 ntutc ntfs_time_offset
