-- ===== src/Time/RoundTrip.antt =====
-- Times that come back from the other format: time_wrappers.h.
use cifsd.Base.{ℕ, ◌+◌, ◌*◌, ◌/◌, ◌%◌, ◌≡◌, ◌<◌, refl, arith}
use cifsd.Locks.{sub64, u64_mod}
use cifsd.Time.{Timespec, ntfs_time_offset, unix_time_to_nt, nt_time_to_unix}

-- The 100ns intervals between the two epochs that a Unix time from 1970 on counts.
ticks : Timespec → ℕ
ticks t = t.tv_sec * 10000000 + t.tv_nsec / 100

forth :
    (t : Timespec)
    → t.tv_sec < 1833029933770
    → t.tv_nsec < 1000000000
    → sub64 (unix_time_to_nt t) ntfs_time_offset ≡ ticks t
unfolding unix_time_to_nt ticks
forth t s n = omega arith

back : (ntutc : ℕ) → ntutc < u64_mod → unix_time_to_nt (nt_time_to_unix ntutc) ≡ ntutc
unfolding unix_time_to_nt nt_time_to_unix
back ntutc l = omega arith

split :
    (t : Timespec)
    → t.tv_nsec < 1000000000
    → (ticks t / 10000000 ≡ t.tv_sec) × (ticks t % 10000000 * 100 ≡ t.tv_nsec / 100 * 100)
unfolding ticks
split t n = (omega arith, omega arith)

-- A Unix time from 1970 on that an NT time can hold comes back but for the last two digits of its nanoseconds,
-- and any NT time of 64 bits comes back as it was.
pub unix_time-nt_time :
    (t : Timespec) (ntutc : ℕ)
    → t.tv_sec < 1833029933770
    → t.tv_nsec < 1000000000
    → ntutc < u64_mod
    → (nt_time_to_unix (unix_time_to_nt t)
        ≡ record { tv_sec = t.tv_sec; tv_nsec = t.tv_nsec / 100 * 100 })
      × (unix_time_to_nt (nt_time_to_unix ntutc) ≡ ntutc)
unfolding nt_time_to_unix
unix_time-nt_time t ntutc s n l =
    let (sec, nsec) = split t n in (rw (forth t s n, sec, nsec) refl, back ntutc l)
