-- ===== src/Posix/Calls.antt =====
-- c/rt/posix.c: the calls that ask the kernel and report its answer. A pointer is its address, 0 for null; of the
-- five words that a system call takes, those that are 0 at the end are left out.
pub mod Report
mod Tests
use mellivora_os.Base.{
  take_zero, take_nil, take-take, add-one, ℕ, zero, suc, ◌+◌, ◌-◌, ◌*◌, ◌/◌, ◌%◌, ◌^◌, ◌≤◌, ◌<◌,
  min, bit_and, bit_or, ◌≡◌, refl, sym, ap, ◌∙◌, subst, fun_ext, ◌≢◌, ◌↔◌, ◌⊎◌, inl, inr, Bool,
  true, false, ◌&&◌, ◌||◌, not, Option, none, some, List, [], ◌∷◌, ◌++◌, map, append-nil,
  append_assoc, arith, dec_lt, ℕ_discrete, ltb, leb, ◌==◌, if◌then◌else◌, ltb→lt, lt→ltb, leb→le,
  ==_iff, tests, Bool-cases, Option-cases, length, get_elem?, set, length-append, get_or, take,
  drop, replicate, take-append-drop, length-take, length-drop, length-replicate, length-map, All,
  All-append, All-drop, drop-append_length, and_ten, u8, u16, u32, first, rest_of,
}
use mellivora_os.Base.Signed.{to_u32}
use mellivora_os.Base.Int.{ℤ, pos, negsuc, ltb_ℤ}
use mellivora_os.Str.Compare.{eqb_ℤ}

abbrev pub sys_open : ℕ
sys_open = 5

abbrev pub sys_read : ℕ
sys_read = 6

abbrev pub sys_write : ℕ
sys_write = 7

abbrev pub sys_close : ℕ
sys_close = 8

abbrev pub sys_delete : ℕ
sys_delete = 9

abbrev pub sys_seek : ℕ
sys_seek = 10

abbrev pub sys_stat : ℕ
sys_stat = 11

abbrev pub sys_mkdir : ℕ
sys_mkdir = 12

abbrev pub sys_chdir : ℕ
sys_chdir = 26

abbrev pub sys_chmod : ℕ
sys_chmod = 68

abbrev pub sys_fork : ℕ
sys_fork = 103

abbrev pub sys_dup : ℕ
sys_dup = 116

abbrev pub sys_dup2 : ℕ
sys_dup2 = 117

abbrev pub sys_fcntl : ℕ
sys_fcntl = 118

abbrev pub sys_access : ℕ
sys_access = 133

abbrev pub sys_fstat : ℕ
sys_fstat = 145

abbrev pub sys_geterrno : ℕ
sys_geterrno = 181

abbrev pub sys_isatty : ℕ
sys_isatty = 151

abbrev pub sys_execve : ℕ
sys_execve = 182

-- errno, and what the kernel acts on.
pub record Caller (W : Type 0) : Type 0 where
  pub errno : ℤ
  pub world : W

abbrev pub default_errno : {W : Type 0} → ℕ → Caller W → Caller W
default_errno e m = if eqb_ℤ m.errno (pos 0) then record m { errno = pos e } else m

module _ {W : Type 0} (mv_syscall : ℕ → List ℕ → W → ℤ × W) where
  unfoldable pub ask : ℕ → List ℕ → Caller W → ℤ × Caller W
  ask number args m = let (r, w) = mv_syscall number args m.world in (r, record m { world = w })

  -- `__errno_from_kernel`.
  unfoldable pub errno_from_kernel : Caller W → Caller W
  errno_from_kernel m =
      let (kernel_errno, w) = mv_syscall sys_geterrno [] m.world in
      record { errno = if ltb_ℤ (pos 0) kernel_errno then kernel_errno else m.errno; world = w }

  -- A negative answer is -1, with the kernel's reason or a fixed errno.
  unfoldable pub with_reason : ℕ → ℤ × Caller W → ℤ × Caller W
  with_reason e (r, m) =
      if ltb_ℤ r (pos 0) then (negsuc 0, default_errno e (errno_from_kernel m)) else (r, m)

  unfoldable pub with_errno : ℕ → ℤ × Caller W → ℤ × Caller W
  with_errno e (r, m) = if ltb_ℤ r (pos 0) then (negsuc 0, record m { errno = pos e }) else (r, m)

  -- An answer that is not negative is 0.
  unfoldable pub status : ℤ × Caller W → ℤ × Caller W
  status (r, m) = (if ltb_ℤ r (pos 0) then r else pos 0, m)

  unfoldable pub open_path : ℕ → ℤ → Caller W → ℤ × Caller W
  open_path path oflag m =
      if path == 0
      then (negsuc 0, record m { errno = pos 14 })
      else with_reason 2 (ask sys_open (path ∷ (to_u32 oflag ∷ [])) m)

  -- O_WRONLY, O_CREAT and O_TRUNC.
  unfoldable pub creat : ℕ → ℕ → Caller W → ℤ × Caller W
  creat path mode m = open_path path (pos (0x1 + 0x40 + 0x200)) m

  unfoldable pub read : ℤ → ℕ → ℕ → Caller W → ℤ × Caller W
  read fd buf count m = with_reason 9 (ask sys_read (to_u32 fd ∷ (buf ∷ (count ∷ []))) m)

  unfoldable pub write : ℤ → ℕ → ℕ → Caller W → ℤ × Caller W
  write fd buf count m = with_reason 9 (ask sys_write (to_u32 fd ∷ (buf ∷ (count ∷ []))) m)

  unfoldable pub close : ℤ → Caller W → ℤ × Caller W
  close fd m = status (with_reason 9 (ask sys_close (to_u32 fd ∷ []) m))

  unfoldable pub lseek : ℤ → ℤ → ℤ → Caller W → ℤ × Caller W
  lseek fd offset whence m =
      with_reason 22 (ask sys_seek (to_u32 fd ∷ (to_u32 offset ∷ (to_u32 whence ∷ []))) m)

  unfoldable pub dup : ℤ → Caller W → ℤ × Caller W
  dup fd m = with_errno 9 (ask sys_dup (to_u32 fd ∷ []) m)

  unfoldable pub dup2 : ℤ → ℤ → Caller W → ℤ × Caller W
  dup2 fd fd2 m = with_errno 9 (ask sys_dup2 (to_u32 fd ∷ (to_u32 fd2 ∷ [])) m)

  unfoldable pub fcntl : ℤ → ℤ → ℤ → Caller W → ℤ × Caller W
  fcntl fd cmd arg m =
      with_errno 22 (ask sys_fcntl (to_u32 fd ∷ (to_u32 cmd ∷ (to_u32 arg ∷ []))) m)

  unfoldable pub unlink : ℕ → Caller W → ℤ × Caller W
  unlink path m = status (with_reason 2 (ask sys_delete (path ∷ []) m))

  unfoldable pub access : ℕ → ℤ → Caller W → ℤ × Caller W
  access path mode m = status (with_reason 13 (ask sys_access (path ∷ (to_u32 mode ∷ [])) m))

  unfoldable pub chdir : ℕ → Caller W → ℤ × Caller W
  chdir path m = status (with_errno 2 (ask sys_chdir (path ∷ []) m))

  unfoldable pub stat : ℕ → ℕ → Caller W → ℤ × Caller W
  stat path buf m = status (with_reason 2 (ask sys_stat (path ∷ (buf ∷ [])) m))

  unfoldable pub fstat : ℤ → ℕ → Caller W → ℤ × Caller W
  fstat fd buf m = status (with_errno 9 (ask sys_fstat (to_u32 fd ∷ (buf ∷ [])) m))

  unfoldable pub mkdir : ℕ → ℕ → Caller W → ℤ × Caller W
  mkdir path mode m = status (with_reason 17 (ask sys_mkdir (path ∷ []) m))

  unfoldable pub chmod : ℕ → ℕ → Caller W → ℤ × Caller W
  chmod path mode m = status (with_errno 1 (ask sys_chmod (path ∷ (mode ∷ [])) m))

  unfoldable pub fork : Caller W → ℤ × Caller W
  fork m = with_reason 11 (ask sys_fork [] m)

  unfoldable pub execve : ℕ → ℕ → ℕ → Caller W → ℤ × Caller W
  execve path argv envp m = status (with_reason 8 (ask sys_execve (path ∷ (argv ∷ (envp ∷ []))) m))

  -- The file system removes an empty directory by the same call.
  unfoldable pub rmdir : ℕ → Caller W → ℤ × Caller W
  rmdir path m = unlink path m

  unfoldable pub isatty : ℤ → Caller W → ℤ × Caller W
  isatty fd m =
      let (r, k) = ask sys_isatty (to_u32 fd ∷ []) m in
      (if eqb_ℤ r (pos 1) then pos 1 else pos 0, k)
