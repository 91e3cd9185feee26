-- ===== src/HashMap/Laws.antt =====
-- Laws of the association list that stands for a `HashMap`.
use mathlib.Core.List.{Permᴰ}
use world_dat.Base.{
  ℕ, ◌+◌, ◌≤◌, ◌≡◌, refl, sym, ◌∙◌, subst, ap, false, some, some_inj, List, [], ◌∷◌, length, All,
  All-map, Bool-cases, inl, inr, ◌<◌, is_some, if◌then◌else◌, Eq, arith,
}
use world_dat.HashMap.{HashMap, IterationOrder, get, insert}

module _ {ℓ} {A : Type ℓ} where
  pub length-Permᴰ : {xs ys : List A} → Permᴰ xs ys → length xs ≡ length ys
  length-Permᴰ Permᴰ.nil = refl
  length-Permᴰ (Permᴰ.cons e p) = omega (arith, length-Permᴰ p)
  length-Permᴰ (Permᴰ.swap e f) = refl
  length-Permᴰ (Permᴰ.trans p q) = length-Permᴰ p ∙ length-Permᴰ q

  pub All-Permᴰ {κ} : (P : A → Type κ) {xs ys : List A} → Permᴰ xs ys → All P ys → All P xs
  All-Permᴰ P Permᴰ.nil h = h
  All-Permᴰ P (Permᴰ.cons e p) h = (subst P (sym e) h.0, All-Permᴰ P p h.1)
  All-Permᴰ P (Permᴰ.swap e f) h = (subst P (sym e) h.1.0, (subst P (sym f) h.0, h.1.1))
  All-Permᴰ P (Permᴰ.trans p q) h = All-Permᴰ P p (All-Permᴰ P q h)

  pub length-arrange : (o : IterationOrder A) (xs : List A) → length (o.arrange xs) ≡ length xs
  length-arrange o xs = length-Permᴰ (o.permutes xs)

  pub All-arrange {κ} :
      (o : IterationOrder A) (P : A → Type κ) (xs : List A) → All P xs → All P (o.arrange xs)
  All-arrange o P xs h = All-Permᴰ P (o.permutes xs) h

module _ {ℓ} {K V : Type ℓ} ⦃key : Eq K⦄ where
  -- `get` after `insert`
  pub get-insert :
      (k j : K) (v : V) (m : HashMap K V)
      → get j (insert k v m) ≡ (if key.equal k j then some v else get j m)
  unfolding get insert
  get-insert k j v [] = refl
  get-insert k j v (e ∷ m) =
      ground
        (arith, get-insert k j v m, key.equal_iff e.0 k, key.equal_iff e.0 j, key.equal_iff k j)

  pub length-insert :
      (k : K) (v : V) (m : HashMap K V)
      → length (insert k v m) ≡ length m + (if is_some (get k m) then 0 else 1)
  unfolding get insert
  length-insert k v [] = refl
  length-insert k v (e ∷ m) = ground (arith, length-insert k v m)

  -- Each key at most once, and what holds of it.
  unfoldable pub keys : K → HashMap K V → ℕ
  keys k [] = 0
  keys k (e ∷ m) = (if key.equal e.0 k then 1 else 0) + keys k m

  abbrev pub IsMap : HashMap K V → Type ℓ
  IsMap m = (k : K) → keys k m ≤ 1

  pub insert-keys :
      (k j : K) (v : V) (m : HashMap K V)
      → keys j (insert k v m)
        ≡ keys j m + (if is_some (get k m) then 0 else (if key.equal k j then 1 else 0))
  unfolding get insert keys
  insert-keys k j v [] = omega arith
  insert-keys k j v (e ∷ m) = ground (arith, insert-keys k j v m)

  pub get-keys : (k : K) (m : HashMap K V) → is_some (get k m) ≡ false → keys k m ≡ 0
  unfolding get keys
  get-keys k [] h = refl
  get-keys k (e ∷ m) h = ground (arith, get-keys k m)

  pub insert-IsMap : (k : K) (v : V) (m : HashMap K V) → IsMap m → IsMap (insert k v m)
  insert-IsMap k v m h j = ground (arith, insert-keys k j v m, h j, get-keys k m, key.equal_iff k j)

  pub insert-All {κ} :
      (P : K → Type κ) (k : K) (v : V) (m : HashMap K V)
      → P k
      → All (λ e. P e.0) m
      → All (λ e. P e.0) (insert k v m)
  unfolding insert
  insert-All P k v [] p h = (p, tt)
  insert-All P k v (e ∷ m) p h = elim (Bool-cases (key.equal e.0 k)) [
    | inl same ↦ rw same h
    | inr other ↦ rw other (h.0, insert-All P k v m p h.1)
  ]

  keys-get : (k : K) (v : V) (m : HashMap K V) → get k m ≡ some v → 0 < keys k m
  unfolding get keys
  keys-get k v [] h = cc
  keys-get k v (e ∷ m) h = ground (arith, keys-get k v m)

  -- Each entry is what `get` returns of its key.
  pub get_own : (m : HashMap K V) → IsMap m → All (λ e. get e.0 m ≡ some e.1) m
  unfolding get keys
  get_own [] h = tt
  get_own (e ∷ m) h = (
    ground (arith, key.equal_iff e.0 e.0),
    All-map m (λ x found. ground (arith, h x.0, keys-get x.0 x.1 m found, key.equal_iff e.0 x.0))
        (get_own m (λ k. omega (arith, h k))),
  )

  pub get-All {κ} :
      (P : V → Type κ) (k : K) {v : V} (m : HashMap K V)
      → All (λ e. P e.1) m
      → get k m ≡ some v
      → P v
  unfolding get
  get-All P k [] h e = absurd (cc e)
  get-All P k (x ∷ m) h e = elim (Bool-cases (key.equal x.0 k)) [
    | inl same ↦ subst P (some_inj (rw same at e)) h.0
    | inr other ↦ get-All P k m h.1 (rw other at e)
  ]

  pub get-key {κ} :
      (P : K → Type κ) (k : K) {v : V} (m : HashMap K V)
      → All (λ e. P e.0) m
      → get k m ≡ some v
      → P k
  unfolding get
  get-key P k [] h e = absurd (cc e)
  get-key P k (x ∷ m) h e = elim (Bool-cases (key.equal x.0 k)) [
    | inl same ↦ subst P ((key.equal_iff x.0 k).0 same) h.0
    | inr other ↦ get-key P k m h.1 (rw other at e)
  ]

  -- A value put back under its key.
  pub insert-get : (k : K) (v : V) (m : HashMap K V) → get k m ≡ some v → insert k v m ≡ m
  unfolding get insert
  insert-get k v [] h = absurd (cc h)
  insert-get k v (e ∷ m) h = elim (Bool-cases (key.equal e.0 k)) [
    | inl same ↦ rw same (ap (λ x. (e.0, x) ∷ m) (sym (some_inj (rw same at h))))
    | inr other ↦ rw other (ap (λ r. e ∷ r) (insert-get k v m (rw other at h)))
  ]

  pub insert-insert : (k : K) (v w : V) (m : HashMap K V) → insert k w (insert k v m) ≡ insert k w m
  unfolding insert
  insert-insert k v w [] = rw ((key.equal_iff k k).1 refl)
  insert-insert k v w (e ∷ m) = elim (Bool-cases (key.equal e.0 k)) [
    | inl same ↦ rw (same, same)
    | inr other ↦ rw (other, other) (ap (λ r. e ∷ r) (insert-insert k v w m))
  ]
