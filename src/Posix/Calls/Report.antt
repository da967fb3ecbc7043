-- ===== src/Posix/Calls/Report.antt =====
-- c/rt/posix.c: how the calls report a failure.
use mellivora_os.Base.{
  ℕ, ◌<◌, ◌≡◌, refl, Bool, ◌∙◌, ap, inl, inr, true, false, List, [], ◌∷◌, arith, ◌==◌,
  if◌then◌else◌, Bool-cases,
}
use mellivora_os.Base.Signed.{to_u32}
use mellivora_os.Base.Int.{ℤ, pos, negsuc, ltb_ℤ}
use mellivora_os.Str.Compare.{eqb_ℤ}
use mellivora_os.Posix.Calls.{
  Caller, ask, errno_from_kernel, default_errno, with_reason, with_errno, status, open_path, read,
  write, close, lseek, dup, dup2, fcntl, unlink, access, chdir, stat, fstat, mkdir, chmod, fork,
  execve, sys_geterrno, sys_read, sys_write, sys_close, sys_seek, sys_dup, sys_dup2, sys_fcntl,
  sys_delete, sys_access, sys_chdir, sys_stat, sys_fstat, sys_mkdir, sys_chmod, sys_fork,
  sys_execve, sys_open,
}

-- A call with its arguments.
pub data Call : Type 0 where
  call_open : ℕ → ℤ → Call
  call_read : ℤ → ℕ → ℕ → Call
  call_write : ℤ → ℕ → ℕ → Call
  call_close : ℤ → Call
  call_lseek : ℤ → ℤ → ℤ → Call
  call_dup : ℤ → Call
  call_dup2 : ℤ → ℤ → Call
  call_fcntl : ℤ → ℤ → ℤ → Call
  call_unlink : ℕ → Call
  call_access : ℕ → ℤ → Call
  call_chdir : ℕ → Call
  call_stat : ℕ → ℕ → Call
  call_fstat : ℤ → ℕ → Call
  call_mkdir : ℕ → ℕ → Call
  call_chmod : ℕ → ℕ → Call
  call_fork : Call
  call_execve : ℕ → ℕ → ℕ → Call

-- The system call behind it.
unfoldable pub number_of : Call → ℕ × List ℕ
number_of (call_open path oflag) = (sys_open, path ∷ (to_u32 oflag ∷ []))
number_of (call_read fd buf count) = (sys_read, (to_u32 fd ∷ (buf ∷ (count ∷ []))))
number_of (call_write fd buf count) = (sys_write, (to_u32 fd ∷ (buf ∷ (count ∷ []))))
number_of (call_close fd) = (sys_close, (to_u32 fd ∷ []))
number_of (call_lseek fd offset whence) =
    (sys_seek, (to_u32 fd ∷ (to_u32 offset ∷ (to_u32 whence ∷ []))))
number_of (call_dup fd) = (sys_dup, (to_u32 fd ∷ []))
number_of (call_dup2 fd fd2) = (sys_dup2, (to_u32 fd ∷ (to_u32 fd2 ∷ [])))
number_of (call_fcntl fd cmd arg) = (sys_fcntl, (to_u32 fd ∷ (to_u32 cmd ∷ (to_u32 arg ∷ []))))
number_of (call_unlink path) = (sys_delete, (path ∷ []))
number_of (call_access path mode) = (sys_access, (path ∷ (to_u32 mode ∷ [])))
number_of (call_chdir path) = (sys_chdir, (path ∷ []))
number_of (call_stat path buf) = (sys_stat, (path ∷ (buf ∷ [])))
number_of (call_fstat fd buf) = (sys_fstat, (to_u32 fd ∷ (buf ∷ [])))
number_of (call_mkdir path mode) = (sys_mkdir, (path ∷ []))
number_of (call_chmod path mode) = (sys_chmod, (path ∷ (mode ∷ [])))
number_of call_fork = (sys_fork, [])
number_of (call_execve path argv envp) = (sys_execve, (path ∷ (argv ∷ (envp ∷ []))))

-- A path that open refuses by itself.
abbrev pub IsAsked : Call → Type 0
IsAsked (call_open path oflag) = 0 < path
IsAsked _ = Unit

-- Whether the kernel is asked for its reason when the call fails.
abbrev pub asks_reason : Call → Bool
asks_reason (call_dup fd) = false
asks_reason (call_dup2 fd fd2) = false
asks_reason (call_fcntl fd cmd arg) = false
asks_reason (call_chdir path) = false
asks_reason (call_fstat fd buf) = false
asks_reason (call_chmod path mode) = false
asks_reason _ = true

-- Whether the result is the kernel's answer.
abbrev pub gives_answer : Call → Bool
gives_answer (call_open path oflag) = true
gives_answer (call_read fd buf count) = true
gives_answer (call_write fd buf count) = true
gives_answer (call_lseek fd offset whence) = true
gives_answer (call_dup fd) = true
gives_answer (call_dup2 fd fd2) = true
gives_answer (call_fcntl fd cmd arg) = true
gives_answer call_fork = true
gives_answer _ = false

-- The errno of a failure: of every one, or of one that has no reason.
abbrev pub code_of : Call → ℕ
code_of (call_open path oflag) = 2
code_of (call_lseek fd offset whence) = 22
code_of (call_fcntl fd cmd arg) = 22
code_of (call_unlink path) = 2
code_of (call_access path mode) = 13
code_of (call_chdir path) = 2
code_of (call_stat path buf) = 2
code_of (call_mkdir path mode) = 17
code_of (call_chmod path mode) = 1
code_of call_fork = 11
code_of (call_execve path argv envp) = 8
code_of _ = 9

positive_other : (r : ℤ) → ltb_ℤ (pos 0) r ≡ true → eqb_ℤ r (pos 0) ≡ false
positive_other (pos n) h = ground (arith, h)
positive_other (negsuc n) h = ground (arith, h)

module _ {W : Type 0} (mv_syscall : ℕ → List ℕ → W → ℤ × W) where
  unfoldable pub posix : Call → Caller W → ℤ × Caller W
  posix (call_open path oflag) m = open_path mv_syscall path oflag m
  posix (call_read fd buf count) m = read mv_syscall fd buf count m
  posix (call_write fd buf count) m = write mv_syscall fd buf count m
  posix (call_close fd) m = close mv_syscall fd m
  posix (call_lseek fd offset whence) m = lseek mv_syscall fd offset whence m
  posix (call_dup fd) m = dup mv_syscall fd m
  posix (call_dup2 fd fd2) m = dup2 mv_syscall fd fd2 m
  posix (call_fcntl fd cmd arg) m = fcntl mv_syscall fd cmd arg m
  posix (call_unlink path) m = unlink mv_syscall path m
  posix (call_access path mode) m = access mv_syscall path mode m
  posix (call_chdir path) m = chdir mv_syscall path m
  posix (call_stat path buf) m = stat mv_syscall path buf m
  posix (call_fstat fd buf) m = fstat mv_syscall fd buf m
  posix (call_mkdir path mode) m = mkdir mv_syscall path mode m
  posix (call_chmod path mode) m = chmod mv_syscall path mode m
  posix call_fork m = fork mv_syscall m
  posix (call_execve path argv envp) m = execve mv_syscall path argv envp m

  -- The caller behind a failure that asks for the kernel's reason, by system call 181: errno is the reason, where
  -- that is positive, else it stays, or is `e` if it was 0.
  abbrev pub told : ℕ → Caller W → Caller W
  told e m =
      let (reason, w) = mv_syscall 181 [] m.world in
      record {
        errno =
            if ltb_ℤ (pos 0) reason
            then reason
            else if eqb_ℤ m.errno (pos 0)
            then pos e
            else m.errno;
        world = w;
      }

  -- The report of an answer of the kernel.
  abbrev pub report : Call → ℤ × Caller W → ℤ × Caller W
  report c (r, m) =
      if ltb_ℤ r (pos 0)
      then (
        negsuc 0,
        if asks_reason c then told (code_of c) m else record m { errno = pos (code_of c) },
      )
      else (if gives_answer c then r else pos 0, m)

  default_told :
      (e : ℕ) (m : Caller W) → default_errno e (errno_from_kernel mv_syscall m) ≡ told e m
  unfolding errno_from_kernel
  default_told e m = elim (Bool-cases (ltb_ℤ (pos 0) (mv_syscall sys_geterrno [] m.world).0)) [
    | inl yes' ↦
        let set : eqb_ℤ (mv_syscall sys_geterrno [] m.world).0 (pos 0) ≡ false =
          positive_other (mv_syscall sys_geterrno [] m.world).0 yes' in
        rw (default_errno, yes', set) refl
    | inr no' ↦ elim (Bool-cases (eqb_ℤ m.errno (pos 0))) [
      | inl unset ↦ rw (default_errno, no', unset) refl
      | inr set ↦ rw (default_errno, no', set) refl
    ]
  ]

  -- Without and with the answer replaced by 0.
  reason_lem :
      (e : ℕ) (r : ℤ) (m : Caller W)
      → with_reason mv_syscall e (r, m) ≡ (if ltb_ℤ r (pos 0) then (negsuc 0, told e m) else (r, m))
  unfolding with_reason
  reason_lem e r m = ap (λ k. if ltb_ℤ r (pos 0) then (negsuc 0, k) else (r, m)) (default_told e m)

  status_lem :
      (k : Caller W) (r : ℤ) (m : Caller W)
      → status mv_syscall (if ltb_ℤ r (pos 0) then (negsuc 0, k) else (r, m))
        ≡ (if ltb_ℤ r (pos 0) then (negsuc 0, k) else (pos 0, m))
  unfolding status
  status_lem k r m = elim (Bool-cases (ltb_ℤ r (pos 0))) [
    | inl bad ↦ rw bad refl
    | inr good ↦ rw good (rw good refl)
  ]

  reason_status :
      (e : ℕ) (p : ℤ × Caller W)
      → status mv_syscall (with_reason mv_syscall e p)
        ≡ (if ltb_ℤ p.0 (pos 0) then (negsuc 0, told e p.1) else (pos 0, p.1))
  reason_status e (r, m) = ap (status mv_syscall) (reason_lem e r m) ∙ status_lem (told e m) r m

  errno_status :
      (e : ℕ) (p : ℤ × Caller W)
      → status mv_syscall (with_errno mv_syscall e p)
        ≡ (if ltb_ℤ p.0 (pos 0) then (negsuc 0, record p.1 { errno = pos e }) else (pos 0, p.1))
  unfolding with_errno
  errno_status e (r, m) = status_lem (record m { errno = pos e }) r m

  -- Each of these calls that reaches the kernel reports its answer. A negative one is -1. For open, read, write,
  -- close, lseek, unlink, access, stat, mkdir, fork and execve errno is then what the kernel gives as its reason, if
  -- that is positive; otherwise errno stays, and if it was 0 it is the call's default: 2 (ENOENT) for open, unlink
  -- and stat, 9 (EBADF) for read, write and close, 22 (EINVAL) for lseek, 13 (EACCES) for access, 17 (EEXIST) for
  -- mkdir, 11 (EAGAIN) for fork, 8 (ENOEXEC) for execve. For dup, dup2 and fstat it is 9, for fcntl 22, for chdir 2
  -- and for chmod 1 (EPERM). Any other answer is the result of open, read, write, lseek, dup, dup2, fcntl and fork,
  -- and the other calls are 0; errno stays as it was.
  pub posix-report :
      (c : Call) (m : Caller W)
      → IsAsked c
      → posix c m ≡ report c (ask mv_syscall (number_of c).0 (number_of c).1 m)
  unfolding posix number_of open_path read write close lseek dup dup2 fcntl unlink access chdir stat
      fstat mkdir chmod fork execve with_errno ask
  posix-report (call_open path oflag) m h =
      let there : (path == 0) ≡ false = ground (arith, h) in
      ap
        (λ b.
          if b
          then (negsuc 0, record m { errno = pos 14 })
          else with_reason mv_syscall 2 (ask mv_syscall sys_open (path ∷ (to_u32 oflag ∷ [])) m))
        there
      ∙ reason_lem 2 _ _
  posix-report (call_read fd buf count) m h = reason_lem 9 _ _
  posix-report (call_write fd buf count) m h = reason_lem 9 _ _
  posix-report (call_close fd) m h = reason_status 9 _
  posix-report (call_lseek fd offset whence) m h = reason_lem 22 _ _
  posix-report (call_dup fd) m h = refl
  posix-report (call_dup2 fd fd2) m h = refl
  posix-report (call_fcntl fd cmd arg) m h = refl
  posix-report (call_unlink path) m h = reason_status 2 _
  posix-report (call_access path mode) m h = reason_status 13 _
  posix-report (call_chdir path) m h = errno_status 2 (ask mv_syscall sys_chdir (path ∷ []) m)
  posix-report (call_stat path buf) m h = reason_status 2 _
  posix-report (call_fstat fd buf) m h =
      errno_status 9 (ask mv_syscall sys_fstat (to_u32 fd ∷ (buf ∷ [])) m)
  posix-report (call_mkdir path mode) m h = reason_status 17 _
  posix-report (call_chmod path mode) m h =
      errno_status 1 (ask mv_syscall sys_chmod (path ∷ (mode ∷ [])) m)
  posix-report call_fork m h = reason_lem 11 _ _
  posix-report (call_execve path argv envp) m h = reason_status 8 _
