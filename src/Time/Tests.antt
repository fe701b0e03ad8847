-- ===== src/Time/Tests.antt =====
-- A time of the year 2019, and the NT time 1, which is before 1970.
use cifsd.Base.{◌/◌, ◌*◌, ◌≡◌, arith}
use cifsd.Time.{Timespec, unix_time_to_nt, nt_time_to_unix}
use cifsd.Time.RoundTrip.{unix_time-nt_time}

abbrev moment : Timespec
moment = record { tv_sec = 1555000000; tv_nsec = 123456789 }

unix_time-nt_time_example :
    (nt_time_to_unix (unix_time_to_nt moment)
      ≡ record { tv_sec = 1555000000; tv_nsec = 123456789 / 100 * 100 })
    × (unix_time_to_nt (nt_time_to_unix 1) ≡ 1)
unix_time-nt_time_example = unix_time-nt_time moment 1 (ground arith) (ground arith) (ground arith)
