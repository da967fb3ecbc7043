-- ===== src/Posix/Calls/Tests.antt =====
-- c/rt/posix.c: calls to a kernel that refuses.
use mellivora_os.Base.{ℕ, ◌≡◌, refl, List, ◌==◌, if◌then◌else◌}
use mellivora_os.Base.Int.{ℤ, pos, negsuc}
use mellivora_os.Posix.Calls.{
  Caller, ask, errno_from_kernel, with_reason, status, close, sys_geterrno,
}
use mellivora_os.Posix.Calls.Report.{call_close, number_of, report, posix, posix-report}

-- The world is the reason that the kernel has recorded.
abbrev refuses : ℕ → List ℕ → ℕ → ℤ × ℕ
refuses number args w = (if number == sys_geterrno then pos w else negsuc 0, w)

abbrev caller : ℕ → Caller ℕ
caller reason = record { errno = pos 0; world = reason }

-- Without a reason errno is EBADF.
close_run : (close refuses (pos 7) (caller 0)).1.errno ≡ pos 9
unfolding close status with_reason ask errno_from_kernel
close_run = refl

close_reason_run : (close refuses (pos 7) (caller 5)).1.errno ≡ pos 5
unfolding close status with_reason ask errno_from_kernel
close_reason_run = refl

posix-report_example :
    posix refuses (call_close (pos 7)) (caller 5)
    ≡ report refuses (call_close (pos 7)) (
        ask refuses
          (number_of (call_close (pos 7))).0
          (number_of (call_close (pos 7))).1
          (caller 5))
posix-report_example = posix-report refuses (call_close (pos 7)) (caller 5) tt
