-- ===== src/Channel.antt =====
-- `std::sync::mpsc`, as src/worker.rs uses it: an unbounded queue, and whether its ends are alive.
-- Both ends are views of one `Channel`.
use world_dat.Base.{◌≡◌, ap, ◌∙◌, Bool, true, false, Option, none, some, List, [], ◌∷◌, ◌++◌, arith}

pub record Channel {ℓ} (A : Type ℓ) : Type ℓ where
  pub queue : List A
  pub sender_alive : Bool
  pub receiver_alive : Bool

abbrev pub channel {ℓ} : {A : Type ℓ} → Channel A
channel = record { queue = []; sender_alive = true; receiver_alive = true }

-- What a receiver gets: the oldest message and the channel without it, nothing yet, or the news that
-- no sender is left.
pub data Received {ℓ} (A : Type ℓ) : Type ℓ where
  got : A → Channel A → Received A
  empty : Received A
  disconnected : Received A

module _ {ℓ} {A : Type ℓ} where
  -- `none` is `SendError`.
  unfoldable pub send : Channel A → A → Option (Channel A)
  send c a = elim c.receiver_alive [
    | true ↦ some (record c { queue = c.queue ++ a ∷ [] })
    | false ↦ none
  ]

  pub send-some :
      (c : Channel A) (a : A)
      → c.receiver_alive ≡ true
      → send c a ≡ some (record c { queue = c.queue ++ a ∷ [] })
  unfolding send
  send-some c a h = ground (arith, h)

  abbrev receive : List A → Channel A → Received A
  receive [] c = elim c.sender_alive [ true ↦ empty | false ↦ disconnected ]
  receive (a ∷ q) c = got a (record c { queue = q })

  -- `recv`, which blocks on `empty`, and `try_recv`, which does not.
  unfoldable pub recv : Channel A → Received A
  recv c = receive c.queue c

  pub recv-got :
      (c : Channel A) (a : A) (q : List A)
      → c.queue ≡ a ∷ q
      → recv c ≡ got a (record c { queue = q })
  unfolding recv
  recv-got c a q e = ap (λ x. receive x c) e

  pub recv-empty : (c : Channel A) → c.queue ≡ [] → c.sender_alive ≡ true → recv c ≡ empty
  unfolding recv
  recv-empty c e alive = ap (λ x. receive x c) e ∙ rw alive

  pub recv-disconnected :
      (c : Channel A) → c.queue ≡ [] → c.sender_alive ≡ false → recv c ≡ disconnected
  unfolding recv
  recv-disconnected c e gone = ap (λ x. receive x c) e ∙ rw gone
