-- ===== src/HashMap.antt =====
-- `std::collections::HashMap`, as the code uses it: an association list with each key once, and an
-- iteration order that the program cannot know.
pub mod Laws
use mathlib.Core.List.{Permᴰ}
use world_dat.Base.{ℕ, Bool, Option, none, some, List, [], ◌∷◌, length, if◌then◌else◌, Eq}

-- The order in which `iter` gives the entries: some rearrangement, which the parameter chooses.
pub record IterationOrder {ℓ} (A : Type ℓ) : Type ℓ where
  pub arrange : List A → List A
  pub permutes : (xs : List A) → Permᴰ (arrange xs) xs

abbrev pub HashMap {ℓ} : Type ℓ → Type ℓ → Type ℓ
HashMap K V = List (K × V)

module _ {ℓ} {K V : Type ℓ} ⦃key : Eq K⦄ where
  unfoldable pub get : K → HashMap K V → Option V
  get k [] = none
  get k (e ∷ m) = if key.equal e.0 k then some e.1 else get k m

  -- The map with the value under the key; what `insert` returns is `get` before it.
  unfoldable pub insert : K → V → HashMap K V → HashMap K V
  insert k v [] = (k, v) ∷ []
  insert k v (e ∷ m) = if key.equal e.0 k then (e.0, v) ∷ m else e ∷ insert k v m
