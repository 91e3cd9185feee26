-- ===== src/Sim/FirstOut.antt =====
-- src/bin/sim.rs: a queue from which the worker at the bootstrap address comes first.
use world_dat.Base.{
  ℕ, zero, suc, ◌≡◌, ◌≢◌, refl, sym, ap, ◌∙◌, some, some_inj, List, [], ◌∷◌, ◌++◌, get_elem?, set,
  All, subst,
}
use world_dat.Sim.{Queued, pop}
use world_dat.Sim.Heard.{Announces}
use world_dat.Types.{PeerId, SocketAddr}

module _ (owner : SocketAddr → PeerId) (boot : SocketAddr) where
  -- A worker that waits to be added, and has not announced itself in vain.
  abbrev pub Waits : Queued → Type 0
  Waits q = (q.addr ≢ boot) × Announces owner boot q.addr q.worker

  -- The worker at the bootstrap address is the first to be added.
  abbrev pub FirstOut : List Queued → Type 0
  FirstOut [] = ⊥
  FirstOut (q ∷ []) = q.addr ≡ boot
  FirstOut (q ∷ x ∷ qs) = Waits q × FirstOut (x ∷ qs)

  pub FirstOut-append :
      (qs : List Queued) (q : Queued) → All Waits qs → q.addr ≡ boot → FirstOut (qs ++ q ∷ [])
  FirstOut-append [] q h e = e
  FirstOut-append (x ∷ []) q h e = (h.0, e)
  FirstOut-append (x ∷ y ∷ qs) q h e = (h.0, FirstOut-append (y ∷ qs) q h.1 e)

  pub FirstOut-pop :
      (qs : List Queued)
      → FirstOut qs
      → (xs : List Queued) × (q : Queued) × (pop qs ≡ some (xs, q)) × All Waits xs × (q.addr ≡ boot)
  unfolding pop
  FirstOut-pop [] h = absurd h
  FirstOut-pop (q ∷ []) h = ([], q, refl, tt, h)
  FirstOut-pop (q ∷ x ∷ qs) h =
      let (xs, l, e, k, at_boot) = FirstOut-pop (x ∷ qs) h.1 in (q ∷ xs, l, rw e, (h.0, k), at_boot)

  pub FirstOut-set :
      (qs : List Queued) (i : ℕ) {q : Queued} (x : Queued)
      → get_elem? qs i ≡ some q
      → x.addr ≡ q.addr
      → (Waits q → Waits x)
      → FirstOut qs
      → FirstOut (set qs i x)
  FirstOut-set [] i x e same w h = h
  FirstOut-set (q ∷ []) zero x e same w h = same ∙ ap (λ y. y.addr) (sym (some_inj e)) ∙ h
  FirstOut-set (q ∷ []) (suc i) x e same w h = absurd (cc e)
  FirstOut-set (q ∷ y ∷ qs) zero x e same w h = (w (subst Waits (some_inj e) h.0), h.1)
  FirstOut-set (q ∷ y ∷ []) (suc zero) x e same w h =
      (h.0, same ∙ ap (λ y. y.addr) (sym (some_inj e)) ∙ h.1)
  FirstOut-set (q ∷ y ∷ z ∷ qs) (suc zero) x e same w h =
      (h.0, FirstOut-set (y ∷ z ∷ qs) zero x e same w h.1)
  FirstOut-set (q ∷ y ∷ []) (suc (suc i)) x e same w h = absurd (cc e)
  FirstOut-set (q ∷ y ∷ z ∷ qs) (suc (suc i)) x e same w h =
      (h.0, FirstOut-set (y ∷ z ∷ qs) (suc i) x e same w h.1)
