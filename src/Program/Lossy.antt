-- ===== src/Program/Lossy.antt =====
-- What `from_utf8_lossy` keeps, and how long its result may be.
use world_dat.Base.{
  ◌++◌, take, drop, ◌∙◌, ap, false, Bool, fun_ext, subst, sym, ltb, ℕ, zero, suc, ◌*◌, ◌≤◌, ◌<◌,
  ◌≡◌, refl, ap, true, List, [], ◌∷◌, length, take, drop, take-append-drop, length-append,
  length-take, length-drop, All, lt→ltb, Bool-cases, inl, inr, arith,
}
use world_dat.Program.Utf8.{
  within, continues, tail_bytes, behind, second_of_3, second_of_4, chunk, replacement, lossy_loop,
  from_utf8_lossy,
}

-- A sequence of characters.
pub data IsUtf8 : List ℕ → Type 0 where
  end : IsUtf8 []
  char :
      (a : ℕ) (bs : List ℕ)
      → (chunk a bs).1 ≡ true
      → IsUtf8 (drop (chunk a bs).0 bs)
      → IsUtf8 (a ∷ bs)

lossy_loop-IsUtf8 : (n : ℕ) {bs : List ℕ} → length bs ≤ n → IsUtf8 bs → lossy_loop n bs ≡ bs
unfolding lossy_loop
lossy_loop-IsUtf8 zero h end = refl
lossy_loop-IsUtf8 (suc n) h end = refl
lossy_loop-IsUtf8 zero h (char a bs good rest) = absurd (omega arith)
lossy_loop-IsUtf8 (suc n) h (char a bs good rest) =
    let later : lossy_loop n (drop (chunk a bs).0 bs) ≡ drop (chunk a bs).0 bs =
      lossy_loop-IsUtf8 n (omega (arith, length-drop (chunk a bs).0 bs)) rest in
    rw (lossy_loop, good, later) (ap (λ r. a ∷ r) (take-append-drop (chunk a bs).0 bs))

-- Bytes that are UTF-8 are kept.
pub from_utf8_lossy-IsUtf8 : {bs : List ℕ} → IsUtf8 bs → from_utf8_lossy bs ≡ bs
unfolding from_utf8_lossy
from_utf8_lossy-IsUtf8 {bs} h = lossy_loop-IsUtf8 (length bs) (omega arith) h

lossy_loop-length : (n : ℕ) (bs : List ℕ) → length (lossy_loop n bs) ≤ 3 * length bs
unfolding lossy_loop
lossy_loop-length zero bs = omega arith
lossy_loop-length (suc n) [] = omega arith
lossy_loop-length (suc n) (a ∷ bs) =
    let rest = lossy_loop-length n (drop (chunk a bs).0 bs) in
    let left = lossy_loop n (drop (chunk a bs).0 bs) in
    elim (Bool-cases (chunk a bs).1) [
      | inl good ↦ rw good (
          omega (
            arith,
            rest,
            length-append (take (chunk a bs).0 bs) left,
            length-take (chunk a bs).0 bs,
            length-drop (chunk a bs).0 bs,
          ))
      | inr bad ↦
          rw bad
            (omega (arith, rest, length-append replacement left, length-drop (chunk a bs).0 bs))
    ]

pub from_utf8_lossy-length : (bs : List ℕ) → length (from_utf8_lossy bs) ≤ 3 * length bs
unfolding from_utf8_lossy
from_utf8_lossy-length bs = lossy_loop-length (length bs) bs

-- Characters of one byte.
pub ascii-IsUtf8 : (bs : List ℕ) → All (λ b. b < 128) bs → IsUtf8 bs
unfolding chunk
ascii-IsUtf8 [] h = end
ascii-IsUtf8 (a ∷ bs) h =
    let one : chunk a bs ≡ (0, true) = rw (chunk, lt→ltb a 128 h.0) in
    char a bs (ap (λ r. r.1) one) (rw one (ascii-IsUtf8 bs h.1))

-- A character stays one before other bytes.
tail_bytes-take :
    (n : ℕ) (bs cs : List ℕ)
    → (tail_bytes n bs).1 ≡ true
    → tail_bytes n (take (tail_bytes n bs).0 bs ++ cs) ≡ tail_bytes n bs
unfolding tail_bytes
tail_bytes-take zero bs cs h = refl
tail_bytes-take (suc n) [] cs h = absurd (cc h)
tail_bytes-take (suc n) (b ∷ bs) cs h = elim (Bool-cases (continues b)) [
  | inl e ↦
      let more : (tail_bytes n bs).1 ≡ true = rw e at h in rw (e, e, tail_bytes-take n bs cs more)
  | inr e ↦ absurd (cc (rw e at h))
]

behind-take :
    (n : ℕ) (second : ℕ → ℕ → Bool) (a : ℕ) (bs cs : List ℕ)
    → (behind n second a bs).1 ≡ true
    → behind n second a (take (behind n second a bs).0 bs ++ cs) ≡ behind n second a bs
unfolding behind
behind-take n second a [] cs h = absurd (cc h)
behind-take n second a (b ∷ bs) cs h = elim (Bool-cases (second a b)) [
  | inl e ↦
      let more : (tail_bytes n bs).1 ≡ true = rw e at h in rw (e, e, tail_bytes-take n bs cs more)
  | inr e ↦ absurd (cc (rw e at h))
]

-- A function that gives the same for the bytes that it takes alone, whatever follows them.
abbrev IsLocal : (List ℕ → ℕ × Bool) → Type 0
IsLocal f = (bs cs : List ℕ) → (f bs).1 ≡ true → f (take (f bs).0 bs ++ cs) ≡ f bs

IsLocal-same : (f g : List ℕ → ℕ × Bool) → ((bs : List ℕ) → f bs ≡ g bs) → IsLocal g → IsLocal f
IsLocal-same f g same local = subst IsLocal (sym (fun_ext same)) local

chunk-IsLocal : (a : ℕ) → IsLocal (chunk a)
unfolding chunk
chunk-IsLocal a = elim (Bool-cases (ltb a 128)) [
  | inl e ↦ IsLocal-same (chunk a) (λ bs. (0, true)) (λ bs. rw (chunk, e)) (λ bs cs h. refl)
  | inr e ↦ elim (Bool-cases (within 194 223 a)) [
    | inl f ↦ IsLocal-same (chunk a) (tail_bytes 1) (λ bs. rw (chunk, e, f)) (tail_bytes-take 1)
    | inr f ↦ elim (Bool-cases (within 224 239 a)) [
      | inl g ↦
          IsLocal-same (chunk a) (behind 1 second_of_3 a) (λ bs. rw (chunk, e, f, g))
            (behind-take 1 second_of_3 a)
      | inr g ↦ elim (Bool-cases (within 240 244 a)) [
        | inl k ↦
            IsLocal-same (chunk a) (behind 2 second_of_4 a) (λ bs. rw (chunk, e, f, g, k))
              (behind-take 2 second_of_4 a)
        | inr k ↦
            IsLocal-same (chunk a) (λ bs. (0, false)) (λ bs. rw (chunk, e, f, g, k))
              (λ bs cs h. refl)
      ]
    ]
  ]
]

tail_bytes-length : (n : ℕ) (bs : List ℕ) → (tail_bytes n bs).0 ≤ length bs
unfolding tail_bytes
tail_bytes-length zero bs = omega arith
tail_bytes-length (suc n) [] = omega arith
tail_bytes-length (suc n) (b ∷ bs) = ground (arith, tail_bytes-length n bs)

behind-length :
    (n : ℕ) (second : ℕ → ℕ → Bool) (a : ℕ) (bs : List ℕ) → (behind n second a bs).0 ≤ length bs
unfolding behind
behind-length n second a [] = omega arith
behind-length n second a (b ∷ bs) = elim (Bool-cases (second a b)) [
  | inl e ↦ rw e (omega (arith, tail_bytes-length n bs))
  | inr e ↦ rw e (omega arith)
]

chunk-length : (a : ℕ) (bs : List ℕ) → (chunk a bs).0 ≤ length bs
unfolding chunk
chunk-length a bs = ground (
  arith,
  tail_bytes-length 1 bs,
  behind-length 1 second_of_3 a bs,
  behind-length 2 second_of_4 a bs,
)

drop-take : (n : ℕ) (bs cs : List ℕ) → n ≤ length bs → drop n (take n bs ++ cs) ≡ cs
drop-take zero bs cs h = refl
drop-take (suc n) [] cs h = absurd (omega arith)
drop-take (suc n) (b ∷ bs) cs h = drop-take n bs cs (omega arith)

replaced-IsUtf8 : {bs : List ℕ} → IsUtf8 bs → IsUtf8 (replacement ++ bs)
unfolding chunk second_of_3 tail_bytes behind
replaced-IsUtf8 {bs} h = char 239 (191 ∷ 189 ∷ bs) refl h

copied-IsUtf8 :
    (a : ℕ) (bs cs : List ℕ)
    → (chunk a bs).1 ≡ true
    → IsUtf8 cs
    → IsUtf8 (a ∷ take (chunk a bs).0 bs ++ cs)
copied-IsUtf8 a bs cs good h =
    let same : chunk a (take (chunk a bs).0 bs ++ cs) ≡ chunk a bs = chunk-IsLocal a bs cs good in
    char a (take (chunk a bs).0 bs ++ cs) (ap (λ r. r.1) same ∙ good) (
      subst IsUtf8
        (sym (
          ap (λ r. drop r.0 (take (chunk a bs).0 bs ++ cs)) same
          ∙ drop-take (chunk a bs).0 bs cs (chunk-length a bs)))
        h)

lossy_loop-IsUtf8_always : (n : ℕ) (bs : List ℕ) → IsUtf8 (lossy_loop n bs)
unfolding lossy_loop
lossy_loop-IsUtf8_always zero bs = end
lossy_loop-IsUtf8_always (suc n) [] = end
lossy_loop-IsUtf8_always (suc n) (a ∷ bs) =
    let rest = lossy_loop-IsUtf8_always n (drop (chunk a bs).0 bs) in
    elim (Bool-cases (chunk a bs).1) [
      | inl good ↦
          rw (lossy_loop, good)
            (copied-IsUtf8 a bs (lossy_loop n (drop (chunk a bs).0 bs)) good rest)
      | inr bad ↦ rw (lossy_loop, bad) (replaced-IsUtf8 rest)
    ]

-- The result is UTF-8, whatever the bytes are.
pub from_utf8_lossy-IsUtf8_always : (bs : List ℕ) → IsUtf8 (from_utf8_lossy bs)
unfolding from_utf8_lossy
from_utf8_lossy-IsUtf8_always bs = lossy_loop-IsUtf8_always (length bs) bs

-- Characters of one byte in front.
pub ascii_before-IsUtf8 : (cs bs : List ℕ) → All (λ c. c < 128) cs → IsUtf8 bs → IsUtf8 (cs ++ bs)
unfolding chunk
ascii_before-IsUtf8 [] bs h k = k
ascii_before-IsUtf8 (c ∷ cs) bs h k =
    let one : chunk c (cs ++ bs) ≡ (0, true) = rw (chunk, lt→ltb c 128 h.0) in
    char c (cs ++ bs) (ap (λ r. r.1) one) (rw one (ascii_before-IsUtf8 cs bs h.1 k))
