-- ===== src/Base/Panics.antt =====
-- A call that returns, or that panics: an index or slice out of range, a failed assertion, an
-- `expect` or `unwrap` of an error.
use mathlib.Core.Logic.{◌⊎◌, inl, inr}
use mathlib.Core.Path.{◌≡◌, refl, sym, subst, ◌∙◌}
use mathlib.Core.Bool.{Bool, true, false}
use mathlib.Core.Option.{Option, none, some}

pub data Run {ℓ} (A : Type ℓ) : Type ℓ where
  ok : A → Run A
  panic : Run A

infixl 5 ◌>>=◌ ◌>>◌
abbrev pub ◌>>=◌ {ℓ κ} : {A : Type ℓ} {B : Type κ} → Run A → (A → Run B) → Run B
ok a >>= f = f a
panic >>= f = panic

abbrev pub ◌>>◌ {ℓ} : {B : Type ℓ} → Run (Unit {0}) → Run B → Run B
m >> k = m >>= λ _. k

-- `assert!`
abbrev pub assert : Bool → Run (Unit {0})
assert true = ok tt
assert false = panic

-- An index that may be out of range.
abbrev pub expect {ℓ} : {A : Type ℓ} → Option A → Run A
expect (some a) = ok a
expect none = panic

-- A call that returns, with a postcondition of its value.
abbrev pub Returns {ℓ κ} : {A : Type ℓ} → Run A → (A → Type κ) → Type (ℓ ⊔ κ)
Returns {A} m P = (a : A) × (m ≡ ok a) × P a

pub ok_inj {ℓ} : {A : Type ℓ} {a b : A} → ok a ≡ ok b → a ≡ b
ok_inj h = cc

pub Returns-value {ℓ κ} :
    {A : Type ℓ} {P : A → Type κ} {r : Run A} {a : A} → r ≡ ok a → Returns r P → P a
Returns-value {P} e (b, f, p) = subst P (ok_inj (sym f ∙ e)) p

pub bind_assoc {ℓ κ μ} :
    {A : Type ℓ} {B : Type κ} {C : Type μ} (r : Run A) (f : A → Run B) (g : B → Run C)
    → (r >>= f) >>= g ≡ r >>= λ x. f x >>= g
bind_assoc (ok a) f g = refl
bind_assoc panic f g = refl

pub Run-cases {ℓ} : {A : Type ℓ} (r : Run A) → (r ≡ panic) ⊎ ((a : A) × (r ≡ ok a))
Run-cases (ok a) = inr (a, refl)
Run-cases panic = inl refl

-- What a chain that returns has gone through.
pub bind_ok {ℓ κ} :
    {A : Type ℓ} {B : Type κ} (r : Run A) (f : A → Run B) {b : B}
    → r >>= f ≡ ok b
    → (a : A) × (r ≡ ok a) × (f a ≡ ok b)
bind_ok (ok a) f e = (a, refl, e)
bind_ok panic f e = absurd (cc e)
