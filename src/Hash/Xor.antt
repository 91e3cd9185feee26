-- ===== src/Hash/Xor.antt =====
-- src/hash.rs: `bitxor` is the bytewise exclusive or, and a distance.
use world_dat.Base.{
  Bool, false, if◌then◌else◌, ℕ, suc, ◌+◌, ◌<◌, bit_xor, ◌≡◌, refl, ap, ap₂, ◌∙◌, true, List, [],
  ◌∷◌, length, replicate, All, ltb, ◌==◌, passes_below, passes_below-lt, some, ok, ◌>>=◌, arith,
  get_elem?,
}
use world_dat.Hash.{Blake2Hash, IsHash, blake2_hash_size, bitxor_loop, bitxor}

-- The exclusive or, byte by byte.
unfoldable pub xor_bytes : List ℕ → List ℕ → List ℕ
xor_bytes [] ys = []
xor_bytes (x ∷ xs) [] = []
xor_bytes (x ∷ xs) (y ∷ ys) = bit_xor x y ∷ xor_bytes xs ys

abbrev pair_test : ℕ → ℕ → Bool
pair_test x y =
    if bit_xor x y == bit_xor y x
    then (if bit_xor x (bit_xor x y) == y then ltb (bit_xor x y) 256 else false)
    else false

xor_table : passes_below (λ x. passes_below (pair_test x) 256) 256 ≡ true
unfolding passes_below
xor_table = refl

-- What the table shows of two bytes.
record ByteXor (x y : ℕ) : Type 0 where
  comm : bit_xor x y ≡ bit_xor y x
  again : bit_xor x (bit_xor x y) ≡ y
  u8 : bit_xor x y < 256

bit_xor-ByteXor : (x y : ℕ) → x < 256 → y < 256 → ByteXor x y
bit_xor-ByteXor x y hx hy =
    let cell = passes_below-lt (pair_test x) 256 hy (passes_below-lt _ 256 hx xor_table) in
    ground (arith, cell)

bitxor_loop-xor_bytes :
    (a b : List ℕ) (xs ys : List ℕ) (i : ℕ) (out : List ℕ)
    → ((j : ℕ) → get_elem? a (i + j) ≡ get_elem? xs j)
    → ((j : ℕ) → get_elem? b (i + j) ≡ get_elem? ys j)
    → length xs ≡ length out
    → length ys ≡ length out
    → bitxor_loop a b i out (length out) ≡ ok (xor_bytes xs ys)
unfolding bitxor_loop xor_bytes
bitxor_loop-xor_bytes a b [] ys i [] ha hb ex ey = refl
bitxor_loop-xor_bytes a b [] ys i (o ∷ out) ha hb ex ey = absurd (omega arith)
bitxor_loop-xor_bytes a b (x ∷ xs) ys i [] ha hb ex ey = absurd (omega arith)
bitxor_loop-xor_bytes a b (x ∷ xs) [] i (o ∷ out) ha hb ex ey = absurd (omega arith)
bitxor_loop-xor_bytes a b (x ∷ xs) (y ∷ ys) i (o ∷ out) ha hb ex ey =
    let next : (j : ℕ) → (i + 1) + j ≡ i + suc j = λ j. omega arith in
    let read_a : get_elem? a i ≡ some x = ap (get_elem? a) (omega arith) ∙ ha 0 in
    let read_b : get_elem? b i ≡ some y = ap (get_elem? b) (omega arith) ∙ hb 0 in
    let rest =
      bitxor_loop-xor_bytes a b xs ys (i + 1) out (λ j. ap (get_elem? a) (next j) ∙ ha (suc j))
        (λ j. ap (get_elem? b) (next j) ∙ hb (suc j)) (omega arith) (omega arith) in
    rw (read_a, read_b, rest)

length-xor_bytes : (xs ys : List ℕ) → length xs ≡ length ys → length (xor_bytes xs ys) ≡ length xs
unfolding xor_bytes
length-xor_bytes [] ys e = refl
length-xor_bytes (x ∷ xs) [] e = absurd (omega arith)
length-xor_bytes (x ∷ xs) (y ∷ ys) e = omega (arith, length-xor_bytes xs ys)

abbrev U8s : List ℕ → Type 0
U8s = All (λ b. b < 256)

xor_bytes-U8s : (xs ys : List ℕ) → U8s xs → U8s ys → U8s (xor_bytes xs ys)
unfolding xor_bytes
xor_bytes-U8s [] ys hx hy = tt
xor_bytes-U8s (x ∷ xs) [] hx hy = tt
xor_bytes-U8s (x ∷ xs) (y ∷ ys) hx hy =
    ((bit_xor-ByteXor x y hx.0 hy.0).u8, xor_bytes-U8s xs ys hx.1 hy.1)

-- The hash of the bytewise exclusive or.
abbrev pub xor_hash : Blake2Hash → Blake2Hash → Blake2Hash
xor_hash a b = record { bytes = xor_bytes a.bytes b.bytes }

-- `bitxor` of two hashes of 32 bytes never indexes out of range, and gives the hash of their bytewise
-- exclusive or.
pub bitxor-xor_hash :
    {a b : Blake2Hash}
    → IsHash a
    → IsHash b
    → (bitxor a b ≡ ok (xor_hash a b)) × IsHash (xor_hash a b)
unfolding bitxor
bitxor-xor_hash {a} {b} ha hb = (
  rw (
    ha.size,
    bitxor_loop-xor_bytes a.bytes b.bytes a.bytes b.bytes 0 (replicate blake2_hash_size 0)
        (λ j. ap (get_elem? a.bytes) (omega arith)) (λ j. ap (get_elem? b.bytes) (omega arith))
        ha.size hb.size,
  ),
  record {
    size = length-xor_bytes a.bytes b.bytes (omega arith) ∙ ha.size;
    u8s = xor_bytes-U8s a.bytes b.bytes ha.u8s hb.u8s;
  },
)

xor_bytes_comm :
    (xs ys : List ℕ) → length xs ≡ length ys → U8s xs → U8s ys → xor_bytes xs ys ≡ xor_bytes ys xs
unfolding xor_bytes
xor_bytes_comm [] [] e hx hy = refl
xor_bytes_comm [] (y ∷ ys) e hx hy = refl
xor_bytes_comm (x ∷ xs) [] e hx hy = refl
xor_bytes_comm (x ∷ xs) (y ∷ ys) e hx hy =
    ap₂ ◌∷◌ (bit_xor-ByteXor x y hx.0 hy.0).comm (xor_bytes_comm xs ys (omega arith) hx.1 hy.1)

xor_bytes_again :
    (xs ys : List ℕ) → length xs ≡ length ys → U8s xs → U8s ys → xor_bytes xs (xor_bytes xs ys) ≡ ys
unfolding xor_bytes
xor_bytes_again [] [] e hx hy = refl
xor_bytes_again [] (y ∷ ys) e hx hy = absurd (omega arith)
xor_bytes_again (x ∷ xs) [] e hx hy = absurd (omega arith)
xor_bytes_again (x ∷ xs) (y ∷ ys) e hx hy =
    ap₂ ◌∷◌ (bit_xor-ByteXor x y hx.0 hy.0).again (xor_bytes_again xs ys (omega arith) hx.1 hy.1)

-- `bitxor` of two hashes of 32 bytes is symmetric.
pub bitxor_comm : {a b : Blake2Hash} → IsHash a → IsHash b → bitxor a b ≡ bitxor b a
bitxor_comm {a} {b} ha hb =
    rw ((bitxor-xor_hash ha hb).0, (bitxor-xor_hash hb ha).0)
      (ap (λ bs. ok (record { bytes = bs }))
        (xor_bytes_comm a.bytes b.bytes (omega arith) ha.u8s hb.u8s))

-- `bitxor` with the same hash twice, of 32 bytes each, gives back the other one.
pub bitxor_again :
    {a b : Blake2Hash} → IsHash a → IsHash b → bitxor a b >>= (λ d. bitxor a d) ≡ ok b
bitxor_again {a} {b} ha hb =
    let (eq, good) = bitxor-xor_hash ha hb in
    rw (eq, (bitxor-xor_hash ha good).0)
      (ap (λ bs. ok (record { bytes = bs }))
        (xor_bytes_again a.bytes b.bytes (omega arith) ha.u8s hb.u8s))
