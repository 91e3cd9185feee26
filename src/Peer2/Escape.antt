-- ===== src/Peer2/Escape.antt =====
-- src/peer2.rs: `escaped` loses nothing.
use world_dat.Base.{
  ℕ, zero, suc, ◌+◌, ◌-◌, ◌*◌, ◌/◌, ◌%◌, ◌≤◌, ◌<◌, ◌≡◌, refl, Option, none, some, List, [], ◌∷◌,
  ◌++◌, length, All, All-append, ltb, ◌==◌, if◌then◌else◌, arith,
}
use world_dat.Peer2.{hex_digit, escape_default, escaped}

-- The value of a hexadecimal digit.
unfoldable pub hex_value : ℕ → ℕ
hex_value c = if ltb c 58 then c - 48 else c - 87

-- The byte at the front of escaped text, and the text behind it.
unfoldable pub unescape_one : List ℕ → Option (ℕ × List ℕ)
unfolding hex_value
unescape_one [] = none
unescape_one (c ∷ []) = if c == 92 then none else some (c, [])
unescape_one (c ∷ d ∷ cs) =
    if c == 92
    then if d == 116
      then some (9, cs)
      else if d == 114
      then some (13, cs)
      else if d == 110
      then some (10, cs)
      else if d == 120
      then (elim cs [
        | [] ↦ none
        | e ∷ es ↦ elim es [ [] ↦ none | f ∷ fs ↦ some (16 * hex_value e + hex_value f, fs) ]
      ])
      else some (d, cs)
    else some (c, d ∷ cs)

-- The bytes of the text, for at most so many.
unfoldable pub unescape : ℕ → List ℕ → Option (List ℕ)
unfolding unescape_one
unescape zero cs = some []
unescape (suc n) [] = some []
unescape (suc n) (c ∷ cs) = elim (unescape_one (c ∷ cs)) [
  | none ↦ none
  | some (b, rest) ↦ elim (unescape n rest) [ none ↦ none | some bs ↦ some (b ∷ bs) ]
]

hex_value-hex_digit : (d : ℕ) → d < 16 → hex_value (hex_digit d) ≡ d
unfolding hex_value hex_digit
hex_value-hex_digit d h = ground (arith, h)

hex_pair :
    (b : ℕ) → b < 256 → 16 * hex_value (hex_digit (b / 16)) + hex_value (hex_digit (b % 16)) ≡ b
hex_pair b h =
    rw (hex_value-hex_digit (b / 16) (omega arith), hex_value-hex_digit (b % 16) (omega arith))
      (omega arith)

unescape_one-escape_default :
    (b : ℕ) (rest : List ℕ) → b < 256 → unescape_one (escape_default b ++ rest) ≡ some (b, rest)
unfolding unescape_one escape_default
unescape_one-escape_default b [] h = ground (arith, hex_pair b h)
unescape_one-escape_default b (c ∷ rest) h = ground (arith, hex_pair b h)

unescape_next :
    (n : ℕ) (cs : List ℕ) {b : ℕ} {rest bs : List ℕ}
    → unescape_one cs ≡ some (b, rest)
    → unescape n rest ≡ some bs
    → unescape (suc n) cs ≡ some (b ∷ bs)
unfolding unescape unescape_one
unescape_next n [] e f = absurd (cc e)
unescape_next n (c ∷ cs) e f = rw (unescape, e, f)

-- Printable characters of ASCII.
abbrev pub IsPrintable : ℕ → Type 0
IsPrintable c = (32 ≤ c) × (c ≤ 126)

escape_default-IsPrintable : (b : ℕ) → b < 256 → All IsPrintable (escape_default b)
unfolding escape_default hex_digit
escape_default-IsPrintable b h = ground (arith, h)

-- `escaped` loses nothing: reading its escapes back gives the bytes again, for any number of steps
-- that is not less than that of the bytes. All that it returns is printable ASCII, so the conversion
-- to text cannot fail.
pub unescape-escaped :
    (n : ℕ) (bytes : List ℕ)
    → All (λ b. b < 256) bytes
    → length bytes ≤ n
    → (unescape n (escaped bytes) ≡ some bytes) × All IsPrintable (escaped bytes)
unfolding escaped unescape
unescape-escaped zero [] h le = (refl, tt)
unescape-escaped (suc n) [] h le = (refl, tt)
unescape-escaped zero (b ∷ bytes) h le = absurd (omega arith)
unescape-escaped (suc n) (b ∷ bytes) h le =
    let (back, printable) = unescape-escaped n bytes h.1 (omega arith) in
    (
      unescape_next n (escape_default b ++ escaped bytes)
          (unescape_one-escape_default b (escaped bytes) h.0) back,
      All-append IsPrintable (escape_default b) (escaped bytes) (escape_default-IsPrintable b h.0)
          printable,
    )
