-- ===== src/Program/Utf8.antt =====
-- `String::from_utf8_lossy`, which the server of src/bin/peer.rs calls.
use world_dat.Base.{
  ℕ, zero, suc, Bool, true, false, ◌&&◌, ◌||◌, List, [], ◌∷◌, ◌++◌, length, take, drop, leb, ltb,
  ◌==◌, if◌then◌else◌,
}

-- A byte between two others.
abbrev pub within : ℕ → ℕ → ℕ → Bool
within low high b = leb low b && leb b high

abbrev pub continues : ℕ → Bool
continues = within 128 191

-- The second bytes that may follow the first one of three or of four.
unfoldable pub second_of_3 : ℕ → ℕ → Bool
second_of_3 a b =
    (a == 224 && within 160 191 b)
    || (within 225 236 a && within 128 191 b)
    || (a == 237 && within 128 159 b)
    || (within 238 239 a && within 128 191 b)

unfoldable pub second_of_4 : ℕ → ℕ → Bool
second_of_4 a b =
    (a == 240 && within 144 191 b)
    || (within 241 243 a && within 128 191 b)
    || (a == 244 && within 128 143 b)

-- The bytes after the first one, up to so many, that continue the character: how many there are, and
-- whether all of them.
unfoldable pub tail_bytes : ℕ → List ℕ → ℕ × Bool
tail_bytes zero bs = (0, true)
tail_bytes (suc n) [] = (0, false)
tail_bytes (suc n) (b ∷ bs) =
    let r = tail_bytes n bs in if continues b then (suc r.0, r.1) else (0, false)

-- The bytes after the first one of three or four, if the second one fits the first.
unfoldable pub behind : ℕ → (ℕ → ℕ → Bool) → ℕ → List ℕ → ℕ × Bool
unfolding tail_bytes
behind n second a [] = (0, false)
behind n second a (b ∷ bs) =
    let r = tail_bytes n bs in if second a b then (suc r.0, r.1) else (0, false)

-- How many bytes after the first one belong to it, and whether they make a character.
unfoldable pub chunk : ℕ → List ℕ → ℕ × Bool
unfolding second_of_3 second_of_4 tail_bytes behind
chunk a bs =
    if ltb a 128
    then (0, true)
    else if within 194 223 a
    then tail_bytes 1 bs
    else if within 224 239 a
    then behind 1 second_of_3 a bs
    else if within 240 244 a
    then behind 2 second_of_4 a bs
    else (0, false)

-- U+FFFD
abbrev pub replacement : List ℕ
replacement = 239 ∷ 191 ∷ 189 ∷ []

-- For at most so many characters: each is copied, and each sequence that is none is replaced.
unfoldable pub lossy_loop : ℕ → List ℕ → List ℕ
unfolding chunk
lossy_loop zero bs = []
lossy_loop (suc n) [] = []
lossy_loop (suc n) (a ∷ bs) =
    let (more, good) = chunk a bs in
    let rest = lossy_loop n (drop more bs) in
    (if good then a ∷ take more bs else replacement) ++ rest

unfoldable pub from_utf8_lossy : List ℕ → List ℕ
unfolding lossy_loop
from_utf8_lossy bs = lossy_loop (length bs) bs
