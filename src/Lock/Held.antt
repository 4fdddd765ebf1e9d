-- ===== src/Lock/Held.antt =====
-- The byte ranges that the process holds at each level of the ladder.
use sqlite_rs.Prelude.{
  ℕ, zero, suc, ◌+◌, ◌≡◌, ap, ◌∙◌, arith, Bool, true, false, leb, ltb, ◌&&◌, ◌==◌, if◌then◌else◌,
  [], ◌∷◌, inl, inr,
}
use sqlite_rs.Prelude.Outcome.{Result, ok, err}
use sqlite_rs.Lock.Ladder.{run_cases}
use sqlite_rs.Lock.{
  LockLevel, unlocked, shared, reserved, pending, exclusive, rank, LockKind, rdlck, wrlck, unlck,
  FcntlCall, lock_call, pending_byte, reserved_byte, shared_first, shared_size, then_run,
  record_level, fcntl_locks, step_up, step_down, climb, descend, set_level,
}

unfoldable pub in_range : ℕ → ℕ → ℕ → Bool
in_range start len b = leb start b && ltb b (start + len)

-- What one granted call makes of the locks held, byte by byte.
unfoldable pub after_call : FcntlCall → (ℕ → LockKind) → ℕ → LockKind
after_call c held b = if in_range (c.start) (c.len) b then c.kind else held b

-- The lock on the SHARED range.
unfoldable pub shared_lock : LockLevel → LockKind
shared_lock unlocked = unlck
shared_lock exclusive = wrlck
shared_lock level = rdlck

-- The locks that a level of the ladder stands for: RESERVED from Reserved on, PENDING from Pending on.
unfoldable pub level_locks : LockLevel → ℕ → LockKind
level_locks level b =
    if in_range shared_first shared_size b
    then shared_lock level
    else if b == reserved_byte
    then if leb (rank reserved) (rank level) then wrlck else unlck
    else if b == pending_byte
    then if leb (rank pending) (rank level) then wrlck else unlck
    else unlck

-- What each step's call makes of the locks of its level.
to_shared :
    (b : ℕ)
    → after_call (lock_call rdlck shared_first shared_size) (level_locks unlocked) b
      ≡ level_locks shared b
unfolding after_call level_locks in_range shared_lock rank
to_shared b = ground arith

to_reserved :
    (b : ℕ)
    → after_call (lock_call wrlck reserved_byte 1) (level_locks shared) b ≡ level_locks reserved b
unfolding after_call level_locks in_range shared_lock rank
to_reserved b = ground arith

to_pending :
    (b : ℕ)
    → after_call (lock_call wrlck pending_byte 1) (level_locks reserved) b ≡ level_locks pending b
unfolding after_call level_locks in_range shared_lock rank
to_pending b = ground arith

to_exclusive :
    (b : ℕ)
    → after_call (lock_call wrlck shared_first shared_size) (level_locks pending) b
      ≡ level_locks exclusive b
unfolding after_call level_locks in_range shared_lock rank
to_exclusive b = ground arith

from_exclusive :
    (b : ℕ)
    → after_call (lock_call rdlck shared_first shared_size) (level_locks exclusive) b
      ≡ level_locks pending b
unfolding after_call level_locks in_range shared_lock rank
from_exclusive b = ground arith

from_pending :
    (b : ℕ)
    → after_call (lock_call unlck pending_byte 1) (level_locks pending) b ≡ level_locks reserved b
unfolding after_call level_locks in_range shared_lock rank
from_pending b = ground arith

from_reserved :
    (b : ℕ)
    → after_call (lock_call unlck reserved_byte 1) (level_locks reserved) b ≡ level_locks shared b
unfolding after_call level_locks in_range shared_lock rank
from_reserved b = ground arith

from_shared :
    (b : ℕ)
    → after_call (lock_call unlck shared_first shared_size) (level_locks shared) b
      ≡ level_locks unlocked b
unfolding after_call level_locks in_range shared_lock rank
from_shared b = ground arith

after_call_cong :
    (c : FcntlCall) (h k : ℕ → LockKind) (b : ℕ) → h b ≡ k b → after_call c h b ≡ after_call c k b
unfolding after_call
after_call_cong c h k b e =
    ap (λ (t : LockKind). if in_range (c.start) (c.len) b then c.kind else t) e

probe_undone :
    (h : ℕ → LockKind) (b : ℕ)
    → h b ≡ level_locks unlocked b
    → after_call (lock_call unlck pending_byte 1) (after_call (lock_call rdlck pending_byte 1) h) b
      ≡ level_locks unlocked b
unfolding after_call level_locks in_range shared_lock rank
probe_undone h b e = ground arith

module _ {E S : Type 0} (fcntl : S → FcntlCall → Result E (Unit {0}) × S) (held : S → ℕ → LockKind)
    (granted : (s s' : S) (c : FcntlCall)
      → fcntl s c ≡ (ok tt, s')
      → (b : ℕ) → held s' b ≡ after_call c (held s) b)
    (refused : (s s' : S) (c : FcntlCall) (e : E)
      → fcntl s c ≡ (err e, s')
      → (b : ℕ) → held s' b ≡ held s b)
    (releases : (s : S) (start len : ℕ)
      → (s' : S) × (fcntl s (lock_call unlck start len) ≡ (ok tt, s'))) where
  abbrev pub Matches : LockLevel → S → Type 0
  Matches level s = (b : ℕ) → held s b ≡ level_locks level b

  abbrev pub EndsMatched : Result E (Unit {0}) × (LockLevel × S) → Type 0
  EndsMatched (r, (level, s)) = Matches level s

  one_call :
      (level next : LockLevel) (c : FcntlCall) (s : S)
      → Matches level s
      → ((b : ℕ) → after_call c (level_locks level) b ≡ level_locks next b)
      → EndsMatched (record_level level next (fcntl_locks fcntl (c ∷ []) s))
  unfolding fcntl_locks
  one_call level next c s m table = elim (run_cases (fcntl s c)) [
    | inl (s', f) ↦
        rw f (λ b.
          granted s s' c f b ∙ after_call_cong c (held s) (level_locks level) b (m b) ∙ table b)
    | inr (e, s', f) ↦ rw f (λ b. refused s s' c e f b ∙ m b)
  ]

  -- The read lock that only probes PENDING_BYTE is given back.
  probe :
      (s s' s2 : S)
      → Matches unlocked s
      → fcntl s (lock_call rdlck pending_byte 1) ≡ (ok tt, s')
      → fcntl s' (lock_call unlck pending_byte 1) ≡ (ok tt, s2)
      → Matches unlocked s2
  probe s s' s2 m f g b =
      granted s' s2 _ g b
      ∙ after_call_cong (lock_call unlck pending_byte 1) (held s')
          (after_call (lock_call rdlck pending_byte 1) (held s)) b (granted s s' _ f b)
      ∙ probe_undone (held s) b (m b)

  step_up_matched :
      (level : LockLevel) (s : S) → Matches level s → EndsMatched (step_up fcntl level s)
  unfolding step_up fcntl_locks
  step_up_matched unlocked s m = elim (run_cases (fcntl s (lock_call rdlck pending_byte 1))) [
    | inl (s', f) ↦
        let (s2, g) = releases s' pending_byte 1 in
        rw (f, g) (one_call unlocked shared _ s2 (probe s s' s2 m f g) to_shared)
    | inr (e, s', f) ↦ rw f (λ b. refused s s' _ e f b ∙ m b)
  ]
  step_up_matched shared s m = one_call shared reserved _ s m to_reserved
  step_up_matched reserved s m = one_call reserved pending _ s m to_pending
  step_up_matched pending s m = one_call pending exclusive _ s m to_exclusive
  step_up_matched exclusive s m = m

  step_down_matched :
      (level : LockLevel) (s : S) → Matches level s → EndsMatched (step_down fcntl level s)
  unfolding step_down
  step_down_matched exclusive s m = one_call exclusive pending _ s m from_exclusive
  step_down_matched pending s m = one_call pending reserved _ s m from_pending
  step_down_matched reserved s m = one_call reserved shared _ s m from_reserved
  step_down_matched shared s m = one_call shared unlocked _ s m from_shared
  step_down_matched unlocked s m = m

  then_run_matched :
      (x : Result E (Unit {0}) × (LockLevel × S))
      (next : LockLevel × S → Result E (Unit {0}) × (LockLevel × S))
      → EndsMatched x
      → ((level : LockLevel) (s : S) → Matches level s → EndsMatched (next (level, s)))
      → EndsMatched (then_run x next)
  then_run_matched (ok _, (level, s)) next m go = go level s m
  then_run_matched (err e, (level, s)) next m go = m

  if_matched :
      (t : Bool) (x y : Result E (Unit {0}) × (LockLevel × S))
      → EndsMatched x
      → EndsMatched y
      → EndsMatched (if t then x else y)
  if_matched true x y m n = m
  if_matched false x y m n = n

  climb_matched :
      (fuel : ℕ) (target level : LockLevel) (s : S)
      → Matches level s
      → EndsMatched (climb fcntl fuel target (level, s))
  unfolding climb
  climb_matched zero target level s m = m
  climb_matched (suc fuel) target level s m =
      if_matched (ltb (rank level) (rank target)) _ (ok tt, (level, s))
        (then_run_matched (step_up fcntl level s) _ (step_up_matched level s m)
          (λ l s'. climb_matched fuel target l s'))
        m

  descend_matched :
      (fuel : ℕ) (target level : LockLevel) (s : S)
      → Matches level s
      → EndsMatched (descend fcntl fuel target (level, s))
  unfolding descend
  descend_matched zero target level s m = m
  descend_matched (suc fuel) target level s m =
      if_matched (ltb (rank target) (rank level)) _ (ok tt, (level, s))
        (then_run_matched (step_down fcntl level s) _ (step_down_matched level s m)
          (λ l s'. descend_matched fuel target l s'))
        m

  -- Where granted calls set just their range, refused calls change nothing and unlocking is never
  -- refused, set_level leaves exactly the locks of the level that it records, byte for byte, also
  -- when a call fails half way.
  pub set_level_matched :
      (target level : LockLevel) (s : S)
      → Matches level s
      → (b : ℕ)
      → held ((set_level fcntl target (level, s)).1.1) b
        ≡ level_locks ((set_level fcntl target (level, s)).1.0) b
  unfolding set_level
  set_level_matched target level s m =
      then_run_matched (climb fcntl 4 target (level, s)) _ (climb_matched 4 target level s m)
        (λ l s'. descend_matched 4 target l s')
