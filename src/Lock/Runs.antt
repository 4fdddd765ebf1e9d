-- ===== src/Lock/Runs.antt =====
-- Concrete runs of the lock ladder, against a system where another process holds PENDING.
use sqlite_rs.Prelude.{ℕ, ◌≡◌, refl, arith, Bool, true, false, ◌&&◌, ◌==◌, if◌then◌else◌}
use sqlite_rs.Prelude.Outcome.{Result, ok, err}
use sqlite_rs.Lock.{
  unlocked, reserved, exclusive, rank, LockKind, wrlck, unlck, FcntlCall, lock_call, pending_byte,
  reserved_byte, fcntl_locks, step_up, step_down, climb, descend, set_level,
}
use sqlite_rs.Lock.Ladder.{Arrives, set_level-Arrives}
use sqlite_rs.Lock.Held.{after_call, in_range, level_locks, shared_lock, set_level_matched}

unfoldable is_write : LockKind → Bool
is_write wrlck = true
is_write k = false

unfoldable contended : (ℕ → LockKind) → FcntlCall → Result ℕ (Unit {0}) × (ℕ → LockKind)
contended held c =
    if is_write (c.kind) && (c.start == pending_byte)
    then (err 11, held)
    else (ok tt, after_call c held)

abbrev nothing_held : ℕ → LockKind
nothing_held b = unlck

stops_at_reserved :
    ((set_level contended exclusive (unlocked, nothing_held)).0 ≡ err 11)
    × ((set_level contended exclusive (unlocked, nothing_held)).1.0 ≡ reserved)
unfolding set_level climb descend step_up step_down fcntl_locks rank contended is_write
stops_at_reserved = (refl, refl)

comes_down : (set_level contended unlocked (exclusive, nothing_held)).1.0 ≡ unlocked
unfolding set_level climb descend step_up step_down fcntl_locks rank contended is_write
comes_down = refl

set_level-Arrives_example :
    Arrives contended unlocked exclusive (set_level contended exclusive (unlocked, nothing_held))
set_level-Arrives_example = set_level-Arrives contended exclusive unlocked nothing_held

contended_granted :
    (held held' : ℕ → LockKind) (c : FcntlCall)
    → contended held c ≡ (ok tt, held')
    → (b : ℕ) → held' b ≡ after_call c held b
unfolding contended
contended_granted held held' c e b = ground arith

contended_refused :
    (held held' : ℕ → LockKind) (c : FcntlCall) (n : ℕ)
    → contended held c ≡ (err n, held')
    → (b : ℕ) → held' b ≡ held b
unfolding contended
contended_refused held held' c n e b = ground arith

contended_releases :
    (held : ℕ → LockKind) (start len : ℕ)
    → (held' : ℕ → LockKind) × (contended held (lock_call unlck start len) ≡ (ok tt, held'))
unfolding contended is_write
contended_releases held start len = (after_call (lock_call unlck start len) held, refl)

nothing_matches : (b : ℕ) → nothing_held b ≡ level_locks unlocked b
unfolding level_locks in_range shared_lock rank
nothing_matches b = ground arith

set_level_matched_example :
    (set_level contended exclusive (unlocked, nothing_held)).1.1 reserved_byte
    ≡ level_locks ((set_level contended exclusive (unlocked, nothing_held)).1.0) reserved_byte
set_level_matched_example =
    set_level_matched contended (λ held. held) contended_granted contended_refused
      contended_releases exclusive unlocked nothing_held nothing_matches reserved_byte
