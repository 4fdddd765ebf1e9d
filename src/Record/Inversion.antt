-- ===== src/Record/Inversion.antt =====
-- What a decode that succeeded did, step by step.
use sqlite_rs.Prelude.{
  ℕ, zero, suc, ◌-◌, ◌≡◌, refl, ap, ◌∙◌, arith, Bool, true, false, ltb, ◌==◌, List, [], ◌∷◌, length,
  inl, inr, ◌⊎◌,
}
use sqlite_rs.Prelude.Outcome.{Result, ok, err, ◌>>=◌, ◌>>◌, guard, >>=-eq-ok}
use sqlite_rs.Prelude.Bytes.{saturating_add}
use sqlite_rs.Record.Error.{RecordError, trailing_data}
use sqlite_rs.Record.Value.{Value, TextEncoding}
use sqlite_rs.Record.Decode.{decode_serial_value, serial_type_len, take_bytes, int24, int48}
use sqlite_rs.Record.Walk.{
  decode_record, read_header_len, read_entry, types_loop, bodies_loop, entries_loop, parse_header,
}

int24-len : (b : List ℕ) (v : Value) (len : ℕ) → int24 b ≡ ok (v, len) → len ≡ 3
unfolding int24
int24-len [] v len e = cc
int24-len (b0 ∷ []) v len e = cc
int24-len (b0 ∷ b1 ∷ []) v len e = cc
int24-len (b0 ∷ b1 ∷ b2 ∷ []) v len e = ground arith
int24-len (b0 ∷ b1 ∷ b2 ∷ b3 ∷ r) v len e = cc

int48-len : (b : List ℕ) (v : Value) (len : ℕ) → int48 b ≡ ok (v, len) → len ≡ 6
unfolding int48
int48-len [] v len e = cc
int48-len (b ∷ bs) v len e = ground arith

bind_24 :
    (m : Result RecordError (List ℕ)) (v : Value) (len : ℕ)
    → (m >>= λ b. int24 b) ≡ ok (v, len)
    → len ≡ 3
bind_24 (ok b) v len e = int24-len b v len e
bind_24 (err x) v len e = cc

bind_48 :
    (m : Result RecordError (List ℕ)) (v : Value) (len : ℕ)
    → (m >>= λ b. int48 b) ≡ ok (v, len)
    → len ≡ 6
bind_48 (ok b) v len e = int48-len b v len e
bind_48 (err x) v len e = cc

-- The bytes that a column takes are those that its serial type declares.
pub decode_serial_value-len :
    (t : ℕ) (buf : List ℕ) (at : ℕ) (encoding : TextEncoding) (v : Value) (len : ℕ)
    → decode_serial_value t buf at encoding ≡ ok (v, len)
    → len ≡ serial_type_len t
unfolding decode_serial_value serial_type_len
decode_serial_value-len t buf at encoding v len e =
    ground (arith, bind_24 (take_bytes buf at 3) v len, bind_48 (take_bytes buf at 6) v len)

-- Each serial type with the offset of its body.
abbrev pub offsets : List ℕ → ℕ → List (ℕ × ℕ)
offsets [] body_pos = []
offsets (t ∷ ts) body_pos = (t, body_pos) ∷ offsets ts (saturating_add body_pos (serial_type_len t))

-- What a walk that succeeded did in its first round.
pub types_loop_cases :
    (n : ℕ) (payload : List ℕ) (hl at : ℕ) (ts : List ℕ)
    → types_loop (suc n) payload hl at ≡ ok ts
    → ((ltb at hl ≡ false) × (ts ≡ []))
      ⊎ ((t : ℕ) × (next : ℕ) × (rest : List ℕ) × (ltb at hl ≡ true)
          × (read_entry payload hl at ≡ ok (t, next))
          × (types_loop n payload hl next ≡ ok rest)
          × (ts ≡ t ∷ rest))
unfolding types_loop
types_loop_cases n payload hl at ts e = go (ltb at hl) refl
  where
    inner :
        (r : Result RecordError (ℕ × ℕ))
        → (r >>= λ x. (types_loop n payload hl x.1 >>= λ rest. ok (x.0 ∷ rest))) ≡ ok ts
        → (t : ℕ) × (next : ℕ) × (rest : List ℕ) × (r ≡ ok (t, next))
          × (types_loop n payload hl next ≡ ok rest)
          × (ts ≡ t ∷ rest)
    inner (ok (t, next)) q =
        let (rest, a, b) = >>=-eq-ok (types_loop n payload hl next) (λ rest. ok (t ∷ rest)) q in
        (t, next, rest, refl, a, cc b)
    inner (err x) q = cc

    go :
        (b : Bool)
        → ltb at hl ≡ b
        → ((ltb at hl ≡ false) × (ts ≡ []))
          ⊎ ((t : ℕ) × (next : ℕ) × (rest : List ℕ) × (ltb at hl ≡ true)
              × (read_entry payload hl at ≡ ok (t, next))
              × (types_loop n payload hl next ≡ ok rest)
              × (ts ≡ t ∷ rest))
    go false q = let e' = rw q at e in inl (q, cc e')
    go true q =
        let (t, next, rest, a, b, c) = inner (read_entry payload hl at) (rw q at e) in
        inr (t, next, rest, q, a, b, c)

pub entries_loop-offsets :
    (n : ℕ) (payload : List ℕ) (hl at body_pos : ℕ) (ts : List ℕ)
    → types_loop n payload hl at ≡ ok ts
    → entries_loop n payload hl at body_pos ≡ ok (offsets ts body_pos)
unfolding entries_loop
entries_loop-offsets zero payload hl at body_pos ts e =
    let z : ts ≡ [] = unfold types_loop in cc e in rw z refl
entries_loop-offsets (suc n) payload hl at body_pos ts e =
    elim (types_loop_cases n payload hl at ts e) [
      | inl (stop, z) ↦ rw (stop, z) refl
      | inr (t, next, rest, more, entry, tail, z) ↦
          rw
            (
              more,
              entry,
              z,
              entries_loop-offsets n payload hl next (saturating_add body_pos (serial_type_len t))
                  rest tail,
            )
            refl
    ]

abbrev with_value : Value → List Value × ℕ → Result RecordError (List Value × ℕ)
with_value v (vs, end) = ok (v ∷ vs, end)

pub bodies_loop_cases :
    (t : ℕ) (ts payload : List ℕ) (body_pos end : ℕ) (encoding : TextEncoding) (vs : List Value)
    → bodies_loop (t ∷ ts) payload body_pos encoding ≡ ok (vs, end)
    → (v : Value) × (len : ℕ) × (rest : List Value) × (decode_serial_value t payload body_pos
          encoding
        ≡ ok (v, len))
      × (bodies_loop ts payload (saturating_add body_pos len) encoding ≡ ok (rest, end))
      × (vs ≡ v ∷ rest)
unfolding bodies_loop
bodies_loop_cases t ts payload body_pos end encoding vs e =
    go (decode_serial_value t payload body_pos encoding) e
  where
    go :
        (r : Result RecordError (Value × ℕ))
        → (r >>= λ x.
            (bodies_loop ts payload (saturating_add body_pos x.1) encoding >>= with_value x.0))
          ≡ ok (vs, end)
        → (v : Value) × (len : ℕ) × (rest : List Value) × (r ≡ ok (v, len))
          × (bodies_loop ts payload (saturating_add body_pos len) encoding ≡ ok (rest, end))
          × (vs ≡ v ∷ rest)
    go (err x) q = cc
    go (ok (v, len)) q =
        let ((rest, end'), a, b) =
          >>=-eq-ok {B = List Value × ℕ}
            (bodies_loop ts payload (saturating_add body_pos len) encoding) (with_value v) q in
        (v, len, rest, refl, rw a (ap (λ (n : ℕ). ok (rest, n)) (cc b)), cc b)

-- The parts of a decode that succeeded.
pub decode_record_parts :
    (payload : List ℕ) (encoding : TextEncoding) (vs : List Value)
    → decode_record payload encoding ≡ ok vs
    → (hl : ℕ) × (n : ℕ) × (ts : List ℕ) × (end : ℕ) × (read_header_len payload ≡ ok (hl, n))
      × (types_loop hl payload hl n ≡ ok ts)
      × (bodies_loop ts payload hl encoding ≡ ok (vs, end))
unfolding decode_record
decode_record_parts payload encoding vs e = go (read_header_len payload) refl e
  where
    finish : List Value × ℕ → Result RecordError (List Value)
    finish (values, body_pos) = do
      guard (body_pos == length payload) (trailing_data (length payload - body_pos))
      ok values

    guarded : (b : Bool) (x : RecordError) (y z : List Value) → (guard b x >> ok y) ≡ ok z → y ≡ z
    guarded true x y z q = cc
    guarded false x y z q = cc

    go :
        (r : Result RecordError (ℕ × ℕ))
        → read_header_len payload ≡ r
        → (r >>= λ h.
            (types_loop h.0 payload h.0 h.1 >>= λ ts.
            (bodies_loop ts payload h.0 encoding >>= finish)))
          ≡ ok vs
        → (hl : ℕ) × (n : ℕ) × (ts : List ℕ) × (end : ℕ) × (read_header_len payload ≡ ok (hl, n))
          × (types_loop hl payload hl n ≡ ok ts)
          × (bodies_loop ts payload hl encoding ≡ ok (vs, end))
    go (err x) h q = cc
    go (ok (hl, n)) h q =
        let (ts, a, b) =
          >>=-eq-ok (types_loop hl payload hl n)
            (λ ts. bodies_loop ts payload hl encoding >>= finish) q in
        let ((values, end), c, d) = >>=-eq-ok (bodies_loop ts payload hl encoding) finish b in
        let same : values ≡ vs = guarded (end == length payload) _ values vs d in
        (hl, n, ts, end, h, a, c ∙ ap (λ (t : List Value). ok (t, end)) same)

pub parse_header-offsets :
    (payload : List ℕ) (hl n : ℕ) (ts : List ℕ)
    → read_header_len payload ≡ ok (hl, n)
    → types_loop hl payload hl n ≡ ok ts
    → parse_header payload ≡ ok (offsets ts hl)
unfolding parse_header
parse_header-offsets payload hl n ts h t = rw (h, entries_loop-offsets hl payload hl n hl ts t) refl
