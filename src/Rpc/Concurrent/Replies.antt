-- ===== src/Rpc/Concurrent/Replies.antt =====
-- Which replies of src/rpc/server.rs hand out a proof.
use tari_vault.Base.{
  ℕ, zero, suc, Bytes, ◌≡◌, ◌≢◌, refl, ap, ◌∙◌, some, List, [], ◌∷◌, Result, ok, err, panic,
  Result-cases, inl, inr,
}
use tari_vault.Error.{VaultError}
use tari_vault.Domain.Chrono.{Instant}
use tari_vault.Domain.Proof.{SerdeJson, PlaintextProof, into_json}
use tari_vault.Vault.Race.{asked, expiring, consuming, finished}
use tari_vault.Vault.Tasks.{
  Task, storing, stored, retrieving, deleting, sweeping, to_delete, discarding, removing, refused,
  deleted,
}
use tari_vault.Vault.Tasks
use tari_vault.Vault.Tasks.Alone.{Outcome, token, proof, removal, outcome}
use tari_vault.Auth.{Request}
use tari_vault.Rpc.{ProofObject}
use tari_vault.Rpc.Jsonrpsee.{object}
use tari_vault.Rpc.Opening.{reply_for, reply_if}
use tari_vault.Rpc.Concurrent.{Exchange, replied, working, sweeper, get_elem?, tasks_of}

-- A task stands among the tasks.
pub task_at :
    {serde : SerdeJson} {Params : Type 0} (es : List (Exchange serde Params)) (i : ℕ)
    (req : Request) (name : Bytes) (params : Params) (t : Task)
    → get_elem? es i ≡ some (working req name params t)
    → (j : ℕ) × (Tasks.get_elem? (tasks_of es) j ≡ some t)
task_at [] i req name params t e = absurd cc
task_at (replied q n p r ∷ es) zero req name params t e = absurd cc
task_at (sweeper u ∷ es) zero req name params t e = absurd cc
task_at (working q n p u ∷ es) zero req name params t e = (zero, cc)
task_at (replied q n p r ∷ es) (suc i) req name params t e = task_at es i req name params t e
task_at (working q n p u ∷ es) (suc i) req name params t e =
    let (j, there) = task_at es i req name params t e in (suc j, there)
task_at (sweeper u ∷ es) (suc i) req name params t e =
    let (j, there) = task_at es i req name params t e in (suc j, there)

module _ (serde : SerdeJson) where
  -- Only a retrieval that has its proof is replied to with one, and that is the value of its bytes.
  read_back :
      (p : PlaintextProof) (o : ProofObject serde)
      → reply_for serde (proof (ok p)) ≡ some (ok (object o))
      → serde.from_slice p.contents ≡ ok o.proof_json
  unfolding reply_for into_json
  read_back p o e = elim (Result-cases (serde.from_slice p.contents)) [
    | inl (v, same) ↦ let told = rw same at e in same ∙ ap ok (cc told)
    | inr (inl (x, fails)) ↦ let told = rw fails at e in absurd cc
    | inr (inr fails) ↦ let told = rw fails at e in absurd cc
  ]

  -- The task has answered a retrieval with a proof, and this is its value.
  abbrev pub HandsOut : Task → ProofObject serde → Type 0
  HandsOut t o =
      (now : Instant) × (text : Bytes) × (p : PlaintextProof) × (t
        ≡ retrieving now text (finished (ok p)))
      × (serde.from_slice p.contents ≡ ok o.proof_json)

  abbrev IsNoObject : Outcome → Type 0
  IsNoObject out = (o : ProofObject serde) → reply_for serde out ≢ some (ok (object o))

  token-IsNoObject : (r : Result VaultError Bytes) → IsNoObject (token r)
  unfolding reply_for
  token-IsNoObject (ok x) o h = absurd cc
  token-IsNoObject (err x) o h = absurd cc
  token-IsNoObject panic o h = absurd cc

  removal-IsNoObject : (r : Result VaultError (Unit {0})) → IsNoObject (removal r)
  unfolding reply_for
  removal-IsNoObject (ok x) o h = absurd cc
  removal-IsNoObject (err x) o h = absurd cc
  removal-IsNoObject panic o h = absurd cc

  pub handing_out :
      (t : Task) (o : ProofObject serde)
      → reply_if serde (outcome t) ≡ some (ok (object o))
      → HandsOut t o
  handing_out (storing e clock p ttl) o h = absurd cc
  handing_out (stored id r) o h = absurd (token-IsNoObject r o h)
  handing_out (retrieving now text (asked u)) o h = absurd cc
  handing_out (retrieving now text (expiring id)) o h = absurd cc
  handing_out (retrieving now text (consuming id plain)) o h = absurd cc
  handing_out (retrieving now text (finished (ok p))) o h = (now, text, p, refl, read_back p o h)
  handing_out (retrieving now text (finished (err x))) o h = absurd (unfold reply_for in cc)
  handing_out (retrieving now text (finished panic)) o h = absurd (unfold reply_for in cc)
  handing_out (deleting now (to_delete u)) o h = absurd cc
  handing_out (deleting now (discarding id)) o h = absurd cc
  handing_out (deleting now (removing id)) o h = absurd cc
  handing_out (deleting now (refused r)) o h = absurd (removal-IsNoObject r o h)
  handing_out (deleting now (deleted id r)) o h = absurd (removal-IsNoObject r o h)
  handing_out (sweeping now) o h = absurd cc
  handing_out (Task.swept r) o h = absurd (unfold reply_for in cc)
