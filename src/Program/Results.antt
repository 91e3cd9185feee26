-- ===== src/Program/Results.antt =====
-- `Result`, as the futures of src/bin/peer.rs chain it by `?`.
use world_dat.Base.{◌⊎◌, inl, inr, ◌≡◌, refl, ap, ok_inj, Run, ok, panic}

pub data Result {ℓ κ} (E : Type ℓ) (A : Type κ) : Type (ℓ ⊔ κ) where
  fail : E → Result E A
  done : A → Result E A

infixl 5 ◌>>=◌
abbrev pub ◌>>=◌ {ℓ κ μ} :
    {E : Type ℓ} {A : Type κ} {B : Type μ} → Result E A → (A → Result E B) → Result E B
fail e >>= f = fail e
done a >>= f = f a

-- `unwrap` and `expect`
abbrev pub unwrap {ℓ κ} : {E : Type ℓ} {A : Type κ} → Result E A → Run A
unwrap (fail e) = panic
unwrap (done a) = ok a

-- `map_err` to an error that says what failed.
abbrev pub map_err {ℓ κ μ} : {E : Type ℓ} {F : Type κ} {A : Type μ} → F → Result E A → Result F A
map_err f (fail e) = fail f
map_err f (done a) = done a

-- What a chain that succeeds has gone through.
pub bind_done {ℓ κ μ} :
    {E : Type ℓ} {A : Type κ} {B : Type μ} (r : Result E A) (f : A → Result E B) {b : B}
    → r >>= f ≡ done b
    → (a : A) × (r ≡ done a) × (f a ≡ done b)
bind_done (fail x) f e = absurd (cc e)
bind_done (done a) f e = (a, refl, e)

pub unwrap_done {ℓ κ} :
    {E : Type ℓ} {A : Type κ} (r : Result E A) {a : A} → unwrap r ≡ ok a → r ≡ done a
unwrap_done (fail x) e = absurd (cc e)
unwrap_done (done b) e = ap done (ok_inj e)

-- What a call ends with.
pub Result-cases {ℓ κ} :
    {E : Type ℓ} {A : Type κ} (r : Result E A) → ((e : E) × (r ≡ fail e)) ⊎ ((a : A) × (r ≡ done a))
Result-cases (fail e) = inl (e, refl)
Result-cases (done a) = inr (a, refl)
