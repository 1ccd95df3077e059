-- ===== src/Vault/Tasks/RealTime.antt =====
-- A retrieval that begins when the record is gone, beside calls that had begun before.
use tari_vault.Base.{
  ℕ, zero, suc, ◌+◌, ◌≤◌, ◌<◌, length, Bytes, IsArray, bytes_eq, bytes_eq_refl, ◌≡◌, ◌≢◌, refl, ◌∙◌,
  ap, subst, false, none, some, List, [], ◌∷◌, All, ok, arith,
}
use tari_vault.Domain.Chrono.{Instant}
use tari_vault.Domain.ClaimId.{ClaimId, decode}
use tari_vault.Domain.ClaimId.Codec.{decode_sound}
use tari_vault.Domain.Proof.{PlaintextProof}
use tari_vault.Storage.Backend.{StorageBackend, Contract}
use tari_vault.Vault.{Crypto}
use tari_vault.Vault.Race.{finished}
use tari_vault.Vault.History.{Call, IsAdmissible, IsFresh}
use tari_vault.Vault.Tasks.{Task, retrieving, turn, System, Step, start, step, Reach, get_elem?}
use tari_vault.Vault.Tasks.Effects.{
  IsProper, begin-IsProper, advance-After, turn-IsSound, effect, applied, Reach-IsSound,
}
use tari_vault.Vault.Tasks.Late.{
  StoresElsewhere, Late, advance-Late, begin-Late, begin-StoresElsewhere, advance-StoresElsewhere,
  effect-none,
}

module _ {S : Type 0} (crypto : Crypto) (backend : StorageBackend S) where
  -- The systems that come after `x`.
  pub data Later (P : Call → Type 0) (x : System S) : System S → Type 0 where
    meanwhile : Later P x x
    and_then : {y z : System S} → Later P x y → Step crypto backend P y z → Later P x z

module _ {S : Type 0} (crypto : Crypto) (backend : StorageBackend S) (c : Contract backend)
    (id : Bytes) where
  -- Tasks are put in front, so the tasks that began after the first `n` are those with `n` and more behind them.
  abbrev AllNewer : ℕ → List Task → Type 0
  AllNewer n [] = Unit
  AllNewer n (t ∷ ts) = (n ≤ length ts → Late crypto backend c id t) × AllNewer n ts

  AllNewer-le : (n : ℕ) (ts : List Task) → length ts ≤ n → AllNewer n ts
  AllNewer-le n [] h = tt
  AllNewer-le n (t ∷ ts) h = (λ k. absurd (omega arith), AllNewer-le n ts (omega arith))

  length-turn : (i : ℕ) (ts : List Task) (s : S) → length (turn crypto backend i ts s).0 ≡ length ts
  unfolding turn
  length-turn i [] s = refl
  length-turn zero (t ∷ ts) s = refl
  length-turn (suc i) (t ∷ ts) s = ap suc (length-turn i ts s)

  AllNewer-turn :
      (n i : ℕ) (ts : List Task) (s : S)
      → c.IsHealthy s
      → All (IsProper crypto backend c) ts
      → c.view s id ≡ none
      → AllNewer n ts
      → AllNewer n (turn crypto backend i ts s).0
  unfolding turn
  AllNewer-turn n i [] s h p gone q = tt
  AllNewer-turn n zero (t ∷ ts) s h p gone q =
      (λ k. advance-Late crypto backend c id t s h p.0 gone (q.0 k), q.1)
  AllNewer-turn n (suc i) (t ∷ ts) s h p gone q =
      (λ k. q.0 (omega (arith, length-turn i ts s)), AllNewer-turn n i ts s h p.1 gone q.1)

  turn-StoresElsewhere :
      (i : ℕ) (ts : List Task) (s : S)
      → All (StoresElsewhere crypto backend c id) ts
      → All (StoresElsewhere crypto backend c id) (turn crypto backend i ts s).0
  unfolding turn
  turn-StoresElsewhere i [] s q = tt
  turn-StoresElsewhere zero (t ∷ ts) s q =
      (advance-StoresElsewhere crypto backend c id t s q.0, q.1)
  turn-StoresElsewhere (suc i) (t ∷ ts) s q = (q.0, turn-StoresElsewhere i ts s q.1)

  turn-gone :
      (i : ℕ) (ts : List Task) (s : S)
      → IsArray 16 id
      → c.IsHealthy s
      → All (IsProper crypto backend c) ts
      → All (StoresElsewhere crypto backend c id) ts
      → c.view s id ≡ none
      → c.view (turn crypto backend i ts s).1 id ≡ none
  unfolding turn
  turn-gone i [] s a h p q gone = gone
  turn-gone zero (t ∷ ts) s a h p q gone =
      (advance-After crypto backend c t s p.0 h).views id a
      ∙ ap (λ o. applied (effect crypto t) id o) gone
      ∙ effect-none crypto backend c id t q.0
  turn-gone (suc i) (t ∷ ts) s a h p q gone = turn-gone i ts s a h p.1 q.1 gone

  -- Where the record is gone and no store of it is under way.
  record IsOver (n : ℕ) (y : System S) : Type 0 where
    healthy : c.IsHealthy y.state
    proper : All (IsProper crypto backend c) y.tasks
    gone : c.view y.state id ≡ none
    elsewhere : All (StoresElsewhere crypto backend c id) y.tasks
    newer : AllNewer n y.tasks

  Later-IsOver :
      (n : ℕ) {x y : System S}
      → IsArray 16 id
      → IsOver n x
      → Later crypto backend
          (λ call. IsAdmissible crypto backend c call × IsFresh crypto backend c id call)
          x
          y
      → IsOver n y
  Later-IsOver n a o meanwhile = o
  Later-IsOver n a o (and_then l (start call allowed)) =
      let v = Later-IsOver n a o l in
      record {
        healthy = v.healthy;
        proper = (begin-IsProper crypto backend c call allowed.0, v.proper);
        gone = v.gone;
        elsewhere = (begin-StoresElsewhere crypto backend c id call allowed.1, v.elsewhere);
        newer = (λ k. begin-Late crypto backend c id call, v.newer);
      }
  Later-IsOver n a o (and_then {y} l (step i)) =
      let v = Later-IsOver n a o l in
      let (healthy, proper) = turn-IsSound crypto backend c i y.tasks y.state v.healthy v.proper in
      record {
        healthy = healthy;
        proper = proper;
        gone = turn-gone i y.tasks y.state a v.healthy v.proper v.elsewhere v.gone;
        elsewhere = turn-StoresElsewhere i y.tasks y.state v.elsewhere;
        newer = AllNewer-turn n i y.tasks y.state v.healthy v.proper v.gone v.newer;
      }

  newer_at :
      (n i : ℕ) (ts : List Task) (t : Task)
      → AllNewer n ts
      → i + n < length ts
      → get_elem? ts i ≡ some t
      → Late crypto backend c id t
  newer_at n i [] t q h e = cc
  newer_at n zero (x ∷ xs) t q h e =
      let same : x ≡ t = cc in subst (Late crypto backend c id) same (q.0 (omega arith))
  newer_at n (suc i) (x ∷ xs) t q h e = newer_at n i xs t q.1 (omega arith) e

-- In a system that calls admitted by the contract have reached, when the record under a token's id is gone and no task is about to
-- store under that id: in every later system, if no call that is started meanwhile stores under it either, a retrieval
-- by the token that began after the record was gone has not answered with a proof.
pub no_late_redemption :
    {S : Type 0} (crypto : Crypto) (backend : StorageBackend S) (c : Contract backend)
    (token : Bytes) (claim : ClaimId) {s : S} {x y : System S}
    → decode crypto.base64 token ≡ ok claim
    → c.IsHealthy s
    → Reach crypto backend (IsAdmissible crypto backend c) s x
    → c.view x.state claim.record_id ≡ none
    → All (StoresElsewhere crypto backend c claim.record_id) x.tasks
    → Later crypto backend
        (λ call. IsAdmissible crypto backend c call × IsFresh crypto backend c claim.record_id call)
        x
        y
    → (i : ℕ) (now : Instant) (p : PlaintextProof) → i + length x.tasks < length y.tasks
    → get_elem? y.tasks i ≢ some (retrieving now token (finished (ok p)))
no_late_redemption crypto backend c token claim {x} {y} d h r gone elsewhere l i now p new = λ e.
    let v = Reach-IsSound crypto backend c h r in
    let id = claim.record_id in
    let first : IsOver crypto backend c id (length x.tasks) x = record {
      healthy = v.healthy;
      proper = v.proper;
      gone = gone;
      elsewhere = elsewhere;
      newer = AllNewer-le crypto backend c id (length x.tasks) x.tasks (omega arith);
    } in
    let over =
      Later-IsOver crypto backend c id (length x.tasks)
        (decode_sound crypto.base64 token claim d).0.id_array first l in
    let other =
      newer_at crypto backend c id (length x.tasks) i y.tasks
        (retrieving now token (finished (ok p))) over.newer new e in
    let miss : bytes_eq id id ≡ false = other claim d in absurd (cc (miss, bytes_eq_refl id))
