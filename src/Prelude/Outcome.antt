-- ===== src/Prelude/Outcome.antt =====
-- Rust's `Result<A, E>` with `?` as bind, and `Option` chains.
use sqlite_rs.Prelude.{◌≡◌, refl, ap, ◌∙◌, ◌⊎◌, inl, inr, Option, none, some, Bool, true, false}

pub data Result {ℓ} (E : Type 0) (A : Type ℓ) : Type ℓ where
  ok : A → Result E A
  err : E → Result E A

-- `o.ok_or(e)`
abbrev pub ok_or {ℓ} : {E : Type 0} {A : Type ℓ} → Option A → E → Result E A
ok_or (some a) e = ok a
ok_or none e = err e

-- `return Err(failure)` unless the test holds
abbrev pub guard : {E : Type 0} → Bool → E → Result E (Unit {0})
guard false failure = err failure
guard true failure = ok tt

-- `r.map_err(f)`
abbrev pub map_err {ℓ} : {E F : Type 0} {A : Type ℓ} → (E → F) → Result E A → Result F A
map_err f (err failure) = err (f failure)
map_err f (ok a) = ok a

-- To split on a computed result and keep the equation.
pub Result-cases {ℓ} :
    {E : Type 0} {A : Type ℓ} (r : Result E A) → ((a : A) × (r ≡ ok a)) ⊎ ((e : E) × (r ≡ err e))
Result-cases (ok a) = inl (a, refl)
Result-cases (err e) = inr (e, refl)

-- `r?` and what follows it.
infixl 5 ◌>>=◌ ◌>>◌
abbrev pub ◌>>=◌ {ℓ κ} :
    {E : Type 0} {A : Type ℓ} {B : Type κ} → Result E A → (A → Result E B) → Result E B
err failure >>= next = err failure
ok value >>= next = next value

abbrev pub ◌>>◌ {ℓ} : {E : Type 0} {B : Type ℓ} → Result E (Unit {0}) → Result E B → Result E B
first >> next = first >>= (λ (_ : Unit). next)

-- A chain that succeeded has a first step that did.
pub >>=-eq-ok {ℓ κ} :
    {E : Type 0} {A : Type ℓ} {B : Type κ} (r : Result E A) (next : A → Result E B) {b : B}
    → (r >>= next) ≡ ok b
    → (a : A) × (r ≡ ok a) × (next a ≡ ok b)
>>=-eq-ok (err failure) next h = cc
>>=-eq-ok (ok value) next h = (value, refl, h)

-- The result is a value with this property.
abbrev pub Gives {ℓ κ} : {E : Type 0} {A : Type ℓ} → Result E A → (A → Type κ) → Type (ℓ ⊔ κ)
Gives {A} r Q = (a : A) × (r ≡ ok a) × Q a

-- A chain gives what its second step gives from what the first one does.
pub Gives-bind {ℓ κ μ ν} :
    {E : Type 0} {A : Type ℓ} {B : Type κ} (r : Result E A) (next : A → Result E B) (P : A → Type μ)
    (Q : B → Type ν)
    → Gives r P
    → ((a : A) → P a → Gives (next a) Q)
    → Gives (r >>= next) Q
Gives-bind r next P Q (a, e, p) step =
    let (b, e', q) = step a p in (b, ap (λ r. r >>= next) e ∙ e', q)

pub ok-injective : {E A : Type 0} (a b : A) (r : Result E A) → r ≡ ok a → r ≡ ok b → a ≡ b
ok-injective a b r e e' = cc

pub ok_or-eq-ok {ℓ} :
    {E : Type 0} {A : Type ℓ} (o : Option A) (e : E) (a : A) → ok_or o e ≡ ok a → o ≡ some a
ok_or-eq-ok (some b) e a h = cc
ok_or-eq-ok none e a h = absurd cc

-- `let Some(x) = o else { break; };`, and `o?` on an option.
abbrev pub or_break : {A B : Type 0} → Option A → (A → Option B) → Option B
or_break none next = none
or_break (some x) next = next x
