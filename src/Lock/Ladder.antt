-- ===== src/Lock/Ladder.antt =====
-- FileLockState::set_level as a walk on the ladder: where it ends, on success and on failure.
use sqlite_rs.Prelude.{
  ℕ, zero, suc, ◌+◌, ◌≤◌, ◌<◌, ◌≡◌, refl, sym, ap, ◌∙◌, arith, min, max, ltb, Bool-cases, ltb→lt,
  le→ltb_false, inl, inr, ◌⊎◌,
}
use sqlite_rs.Prelude.Outcome.{Result, ok, err}
use sqlite_rs.Lock.{
  LockLevel, unlocked, shared, reserved, pending, exclusive, rank, FcntlCall, record_level, step_up,
  step_down, climb, descend, set_level,
}

level_at : ℕ → LockLevel
level_at zero = unlocked
level_at (suc zero) = shared
level_at (suc (suc zero)) = reserved
level_at (suc (suc (suc zero))) = pending
level_at (suc (suc (suc (suc n)))) = exclusive

level_at-rank : (a : LockLevel) → level_at (rank a) ≡ a
unfolding rank level_at
level_at-rank unlocked = refl
level_at-rank shared = refl
level_at-rank reserved = refl
level_at-rank pending = refl
level_at-rank exclusive = refl

pub rank-injective : (a b : LockLevel) → rank a ≡ rank b → a ≡ b
rank-injective a b e = sym (level_at-rank a) ∙ ap level_at e ∙ level_at-rank b

≤_total : (a b : ℕ) → (a ≤ b) ⊎ (b ≤ a)
≤_total a b = omega arith

pub rank_bound : (a : LockLevel) → rank a ≤ 4
unfolding rank
rank_bound unlocked = omega arith
rank_bound shared = omega arith
rank_bound reserved = omega arith
rank_bound pending = omega arith
rank_bound exclusive = omega arith

pub run_cases :
    {E A : Type 0} (x : Result E (Unit {0}) × A)
    → ((a : A) × (x ≡ (ok tt, a))) ⊎ ((e : E) × (a : A) × (x ≡ (err e, a)))
run_cases (ok tt, a) = inl (a, refl)
run_cases (err e, a) = inr (e, a, refl)

-- How a step that aims at `next` ends: there, or with an error at the level it began on.
abbrev Steps :
    {E S : Type 0} → LockLevel → LockLevel → Result E (Unit {0}) × (LockLevel × S) → Type 0
Steps {E} {S} level next x =
    ((s : S) × (x ≡ (ok tt, (next, s)))) ⊎ ((e : E) × (s : S) × (x ≡ (err e, (level, s))))

record_level-Steps :
    {E S : Type 0} (level next : LockLevel) (x : Result E (Unit {0}) × S)
    → Steps level next (record_level level next x)
record_level-Steps level next (ok tt, s) = inl (s, refl)
record_level-Steps level next (err e, s) = inr (e, s, refl)

module _ {E S : Type 0} (fcntl : S → FcntlCall → Result E (Unit {0}) × S) where
  step_up-Steps :
      (level : LockLevel) (s : S)
      → rank level < 4
      → (next : LockLevel) × (rank next ≡ rank level + 1) × Steps level next (step_up fcntl level s)
  unfolding step_up rank
  step_up-Steps unlocked s h = (shared, refl, record_level-Steps unlocked shared _)
  step_up-Steps shared s h = (reserved, refl, record_level-Steps shared reserved _)
  step_up-Steps reserved s h = (pending, refl, record_level-Steps reserved pending _)
  step_up-Steps pending s h = (exclusive, refl, record_level-Steps pending exclusive _)
  step_up-Steps exclusive s h = absurd (omega (arith, h))

  step_down-Steps :
      (level : LockLevel) (s : S)
      → 0 < rank level
      → (next : LockLevel) × (rank next + 1 ≡ rank level)
        × Steps level next (step_down fcntl level s)
  unfolding step_down rank
  step_down-Steps exclusive s h = (pending, refl, record_level-Steps exclusive pending _)
  step_down-Steps pending s h = (reserved, refl, record_level-Steps pending reserved _)
  step_down-Steps reserved s h = (shared, refl, record_level-Steps reserved shared _)
  step_down-Steps shared s h = (unlocked, refl, record_level-Steps shared unlocked _)
  step_down-Steps unlocked s h = absurd (omega (arith, h))

  -- How a run from `from` to `target` ends: at the target, or with an error at a level between.
  abbrev pub Arrives : LockLevel → LockLevel → Result E (Unit {0}) × (LockLevel × S) → Type 0
  Arrives from target x =
      ((s : S) × (x ≡ (ok tt, (target, s))))
      ⊎ ((e : E) × (level : LockLevel) × (s : S) × (x ≡ (err e, (level, s)))
          × (min (rank from) (rank target) ≤ rank level)
          × (rank level ≤ max (rank from) (rank target)))

  -- A run that goes on from a level between.
  Arrives-from :
      (from next target : LockLevel) (x : Result E (Unit {0}) × (LockLevel × S))
      → min (rank from) (rank target) ≤ rank next
      → rank next ≤ max (rank from) (rank target)
      → Arrives next target x
      → Arrives from target x
  Arrives-from from next target x p q (inl done) = inl done
  Arrives-from from next target x p q (inr (e, level, s, f, low, high)) =
      inr (e, level, s, f, omega (arith, low, p), omega (arith, high, q))

  climb-Arrives :
      (fuel : ℕ) (target level : LockLevel) (s : S)
      → rank level ≤ rank target
      → rank target ≤ rank level + fuel
      → Arrives level target (climb fcntl fuel target (level, s))
  unfolding climb
  climb-Arrives zero target level s p q =
      inl (s, ap (λ l. (ok tt, (l, s))) (rank-injective level target (omega arith)))
  climb-Arrives (suc fuel) target level s p q = elim (Bool-cases (ltb (rank level) (rank target))) [
    | inr e ↦
        let there = rank-injective level target (ground arith) in
        inl (s, rw e (ap (λ l. (ok tt, (l, s))) there))
    | inl e ↦
        let below = ltb→lt _ _ e in
        let (next, up, steps) = step_up-Steps level s (omega (arith, below, rank_bound target)) in
        elim steps [
          | inr (failure, s', f) ↦
              inr (failure, level, s', rw (e, f) refl, omega arith, omega arith)
          | inl (s', f) ↦
              rw (e, f)
                (Arrives-from level next target (climb fcntl fuel target (next, s'))
                  (omega (arith, up)) (omega (arith, up, below))
                  (climb-Arrives fuel target next s' (omega (arith, up, below))
                    (omega (arith, up, q))))
        ]
  ]

  descend-Arrives :
      (fuel : ℕ) (target level : LockLevel) (s : S)
      → rank target ≤ rank level
      → rank level ≤ rank target + fuel
      → Arrives level target (descend fcntl fuel target (level, s))
  unfolding descend
  descend-Arrives zero target level s p q =
      inl (s, ap (λ l. (ok tt, (l, s))) (rank-injective level target (omega arith)))
  descend-Arrives (suc fuel) target level s p q =
      elim (Bool-cases (ltb (rank target) (rank level))) [
        | inr e ↦
            let there = rank-injective level target (ground arith) in
            inl (s, rw e (ap (λ l. (ok tt, (l, s))) there))
        | inl e ↦
            let above = ltb→lt _ _ e in
            let (next, down, steps) = step_down-Steps level s (omega (arith, above)) in
            elim steps [
              | inr (failure, s', f) ↦
                  inr (failure, level, s', rw (e, f) refl, omega arith, omega arith)
              | inl (s', f) ↦
                  rw (e, f)
                    (Arrives-from level next target (descend fcntl fuel target (next, s'))
                      (omega (arith, down, above)) (omega (arith, down, above))
                      (descend-Arrives fuel target next s' (omega (arith, down, above))
                        (omega (arith, down, q))))
            ]
      ]

  -- A loop whose test fails at once.
  climb_stays :
      (target level : LockLevel) (s : S)
      → rank target ≤ rank level
      → climb fcntl 4 target (level, s) ≡ (ok tt, (level, s))
  unfolding climb
  climb_stays target level s p = rw (le→ltb_false (rank level) (rank target) p) refl

  descend_stays :
      (target : LockLevel) (s : S) → descend fcntl 4 target (target, s) ≡ (ok tt, (target, s))
  unfolding descend
  descend_stays target s = rw (le→ltb_false (rank target) (rank target) (omega arith)) refl

  -- Whatever the system calls answer, set_level ends at its target or hands on the error of a call,
  -- and then the level it leaves is a level of the ladder between the two.
  pub set_level-Arrives :
      (target level : LockLevel) (s : S) → Arrives level target (set_level fcntl target (level, s))
  unfolding set_level
  set_level-Arrives target level s = elim (≤_total (rank target) (rank level)) [
    | inl down ↦
        rw (climb_stays target level s down)
          (descend-Arrives 4 target level s down (omega (arith, rank_bound level)))
    | inr up ↦ elim (climb-Arrives 4 target level s up (omega (arith, rank_bound target))) [
      | inl (s', f) ↦ inl (s', rw (f, descend_stays target s') refl)
      | inr (e, l, s', f, low, high) ↦ inr (e, l, s', rw f refl, low, high)
    ]
  ]
