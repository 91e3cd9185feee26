-- ===== src/Peer2.antt =====
-- src/peer2.rs: the peer on the worker and `quinn`; what it logs of a request.
pub mod Escape
pub mod Keys
pub mod Node
pub mod Quinn
pub mod Requests
pub mod Run
pub mod Samples
mod Tests
use world_dat.Base.{ℕ, ◌+◌, ◌*◌, ◌/◌, ◌%◌, List, [], ◌∷◌, ◌++◌, ◌&&◌, leb, ltb, ◌==◌, if◌then◌else◌}

-- A digit of `ascii::escape_default`, which writes hexadecimal numbers in lower case.
unfoldable pub hex_digit : ℕ → ℕ
hex_digit d = if ltb d 10 then 48 + d else 87 + d

-- `ascii::escape_default`, on the byte's number.
unfoldable pub escape_default : ℕ → List ℕ
unfolding hex_digit
escape_default b =
    if b == 9
    then 92 ∷ 116 ∷ []
    else if b == 13
    then 92 ∷ 114 ∷ []
    else if b == 10
    then 92 ∷ 110 ∷ []
    else if b == 39
    then 92 ∷ 39 ∷ []
    else if b == 34
    then 92 ∷ 34 ∷ []
    else if b == 92
    then 92 ∷ 92 ∷ []
    else if leb 32 b && leb b 126
    then b ∷ []
    else 92 ∷ 120 ∷ hex_digit (b / 16) ∷ hex_digit (b % 16) ∷ []

unfoldable pub escaped : List ℕ → List ℕ
unfolding escape_default
escaped [] = []
escaped (b ∷ bytes) = escape_default b ++ escaped bytes
