-- ===== src/Vault/Tasks/Locked/Exclusion.antt =====
-- Vault.Tasks.Locked: which worker has the lock, and what the store is to it.
use tari_vault.Base.{
  ℕ, zero, suc, ◌≡◌, refl, ap, Bool, true, false, none, some, List, [], ◌∷◌, All, inl, inr, ◌⊎◌,
}
use tari_vault.Storage.Backend.{StorageBackend}
use tari_vault.Storage.Backend.Ask.{Ask, asks, LockedParts}
use tari_vault.Vault.{Crypto}
use tari_vault.Vault.Tasks.{Task, turn}
use tari_vault.Vault.Tasks.Asks.{ask_of, told, unasked, turn-asks}
use tari_vault.Vault.Tasks.Locked.{Worker, outside, holds, has_read, tasks_of}

module _ {S : Type 0} (crypto : Crypto) (backend : StorageBackend S)
    (parts : LockedParts backend) where
  abbrev pub IsOutside : Worker parts.Loaded → Type 0
  IsOutside (outside t) = Unit
  IsOutside _ = ⊥

  -- The worker has the lock for the call that its task awaits, `e` being the store when it took it.
  abbrev pub IsInside : S → S → Worker parts.Loaded → Type 0
  IsInside e s (outside t) = ⊥
  IsInside e s (holds a t) = (s ≡ e) × (ask_of crypto t ≡ some a)
  IsInside e s (has_read a t l) =
      (l ≡ (parts.load e).0) × (s ≡ (parts.load e).1) × (ask_of crypto t ≡ some a)

  abbrev pub OneInside : S → S → List (Worker parts.Loaded) → Type 0
  OneInside e s [] = ⊥
  OneInside e s (w ∷ ws) = (IsInside e s w × All IsOutside ws) ⊎ (IsOutside w × OneInside e s ws)

  abbrev pub IsExclusive : S → Bool → S → List (Worker parts.Loaded) → Type 0
  IsExclusive e true s ws = (s ≡ e) × All IsOutside ws
  IsExclusive e false s ws = OneInside e s ws

  -- The tasks are as before, or the one at the place has had its turn.
  abbrev pub Turned : ℕ → List Task → S → List Task → S → Type 0
  Turned i ts e ts' e' =
      Path (List Task × S) (ts', e') (ts, e)
      ⊎ Path (List Task × S) (ts', e') (turn crypto backend i ts e)

  pub suc-Turned :
      (i : ℕ) (t : Task) (ts : List Task) (e : S) (ts' : List Task) (e' : S)
      → Turned i ts e ts' e'
      → Turned (suc i) (t ∷ ts) e (t ∷ ts') e'
  unfolding turn
  suc-Turned i t ts e ts' e' (inl same) = inl (ap (λ p. (t ∷ p.0, p.1)) same)
  suc-Turned i t ts e ts' e' (inr turned) = inr (ap (λ p. (t ∷ p.0, p.1)) turned)

  abbrev pub Moved : ℕ → List Task → S → List (Worker parts.Loaded) × Bool × S → Type 0
  Moved i ts e out = (e' : S) × IsExclusive e' out.1 out.2 out.0 × Turned i ts e (tasks_of out.0) e'

  -- A call that asks for nothing goes on whoever has the lock.
  pub unasked-Turned :
      (t : Task) (ts : List Task) (e : S)
      → ask_of crypto t ≡ none
      → Turned zero (t ∷ ts) e (unasked crypto t ∷ ts) e
  unfolding turn
  unasked-Turned t ts e asks_nothing = inr (rw (turn-asks crypto backend t e, asks_nothing) refl)

  pub asked-Turned :
      (t : Task) (ts : List Task) (e : S) (a : Ask)
      → ask_of crypto t ≡ some a
      → Turned zero (t ∷ ts) e (told crypto t (asks backend a e).0 ∷ ts) (asks backend a e).1
  unfolding turn
  asked-Turned t ts e a awaits = inr (rw (turn-asks crypto backend t e, awaits) refl)

  pub IsExclusive-cons :
      (e : S) (free : Bool) (s : S) (w : Worker parts.Loaded) (ws : List (Worker parts.Loaded))
      → IsOutside w
      → IsExclusive e free s ws
      → IsExclusive e free s (w ∷ ws)
  IsExclusive-cons e true s w ws out h = (h.0, (out, h.1))
  IsExclusive-cons e false s w ws out h = inr (out, h)
