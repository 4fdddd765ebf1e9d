-- ===== src/Lock.antt =====
-- vfs/lock.rs: the lock ladder of the journal modes over fcntl byte-range locks.
pub mod Ladder
pub mod Held
mod Runs
use sqlite_rs.Prelude.{ℕ, zero, suc, ◌+◌, ltb, leb, Bool, if◌then◌else◌, List, [], ◌∷◌}
use sqlite_rs.Prelude.Outcome.{Result, ok, err}

abbrev pub pending_byte : ℕ
pending_byte = 0x40000000

abbrev pub reserved_byte : ℕ
reserved_byte = pending_byte + 1

abbrev pub shared_first : ℕ
shared_first = pending_byte + 2

abbrev pub shared_size : ℕ
shared_size = 510

pub data LockLevel : Type 0 where
  unlocked shared reserved pending exclusive : LockLevel

-- The derived order of the levels.
unfoldable pub rank : LockLevel → ℕ
rank unlocked = 0
rank shared = 1
rank reserved = 2
rank pending = 3
rank exclusive = 4

-- `l_type`: F_RDLCK, F_WRLCK, F_UNLCK
pub data LockKind : Type 0 where
  rdlck wrlck unlck : LockKind

-- The `flock` of an F_SETLK call.
pub record FcntlCall : Type 0 where
  kind : LockKind
  start : ℕ
  len : ℕ

abbrev pub lock_call : LockKind → ℕ → ℕ → FcntlCall
lock_call k s n = record { kind = k; start = s; len = n }

unfoldable pub is_write_locked : LockLevel → Bool
is_write_locked level = leb (rank reserved) (rank level)

-- `r?` where an error also keeps the state reached.
abbrev pub then_run :
    {E A : Type 0}
    → Result E (Unit {0}) × A
    → (A → Result E (Unit {0}) × A)
    → Result E (Unit {0}) × A
then_run (ok _, a) next = next a
then_run (err e, a) next = (err e, a)

-- `self.level = next` after calls that all succeeded.
abbrev pub record_level :
    {E S : Type 0}
    → LockLevel
    → LockLevel
    → Result E (Unit {0}) × S
    → Result E (Unit {0}) × (LockLevel × S)
record_level level next (ok _, s) = (ok tt, (next, s))
record_level level next (err e, s) = (err e, (level, s))

-- The system call, on the operating system's state `S`, with its I/O errors `E`.
module _ {E S : Type 0} (fcntl : S → FcntlCall → Result E (Unit {0}) × S) where
  -- `fcntl_lock(..)?; fcntl_lock(..)?; ..`: the calls up to the first that fails.
  unfoldable pub fcntl_locks : List FcntlCall → S → Result E (Unit {0}) × S
  fcntl_locks [] s = (ok tt, s)
  fcntl_locks (c ∷ cs) s = then_run (fcntl s c) (λ s'. fcntl_locks cs s')

  -- The calls that take `level` one step up.
  unfoldable pub step_up : LockLevel → S → Result E (Unit {0}) × (LockLevel × S)
  step_up unlocked s = record_level unlocked shared (
      fcntl_locks
        (lock_call rdlck pending_byte 1
          ∷ lock_call unlck pending_byte 1
          ∷ lock_call rdlck shared_first shared_size
          ∷ [])
        s)
  step_up shared s =
      record_level shared reserved (fcntl_locks (lock_call wrlck reserved_byte 1 ∷ []) s)
  step_up reserved s =
      record_level reserved pending (fcntl_locks (lock_call wrlck pending_byte 1 ∷ []) s)
  step_up pending s =
      record_level pending exclusive (fcntl_locks (lock_call wrlck shared_first shared_size ∷ []) s)
  step_up exclusive s = (ok tt, (exclusive, s))

  unfoldable pub step_down : LockLevel → S → Result E (Unit {0}) × (LockLevel × S)
  step_down exclusive s =
      record_level exclusive pending (fcntl_locks (lock_call rdlck shared_first shared_size ∷ []) s)
  step_down pending s =
      record_level pending reserved (fcntl_locks (lock_call unlck pending_byte 1 ∷ []) s)
  step_down reserved s =
      record_level reserved shared (fcntl_locks (lock_call unlck reserved_byte 1 ∷ []) s)
  step_down shared s =
      record_level shared unlocked (fcntl_locks (lock_call unlck shared_first shared_size ∷ []) s)
  step_down unlocked s = (ok tt, (unlocked, s))

  -- `while self.level < target { self.step_up()?; }`, on fuel.
  unfoldable pub climb : ℕ → LockLevel → LockLevel × S → Result E (Unit {0}) × (LockLevel × S)
  climb zero target (level, s) = (ok tt, (level, s))
  climb (suc fuel) target (level, s) =
      if ltb (rank level) (rank target)
      then then_run (step_up level s) (λ next. climb fuel target next)
      else (ok tt, (level, s))

  -- `while self.level > target { self.step_down()?; }`, on fuel.
  unfoldable pub descend : ℕ → LockLevel → LockLevel × S → Result E (Unit {0}) × (LockLevel × S)
  descend zero target (level, s) = (ok tt, (level, s))
  descend (suc fuel) target (level, s) =
      if ltb (rank target) (rank level)
      then then_run (step_down level s) (λ next. descend fuel target next)
      else (ok tt, (level, s))

  -- The ladder has five levels, so four rounds of either loop are enough.
  unfoldable pub set_level : LockLevel → LockLevel × S → Result E (Unit {0}) × (LockLevel × S)
  set_level target state = then_run (climb 4 target state) (λ next. descend 4 target next)

  -- `drop` ignores the outcome.
  unfoldable pub drop_lock : LockLevel × S → LockLevel × S
  drop_lock state = let (r, after) = set_level unlocked state in after
