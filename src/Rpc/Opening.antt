-- ===== src/Rpc/Opening.antt =====
-- The handlers of src/rpc/server.rs cut where they await the vault: what a method does before, which is
-- to reply at once or to make one call, and what it replies once the call is answered.
use tari_vault.Base.{
  ℕ, Bytes, bytes_eq, Option, none, some, length, ltb, Result, ok, err, panic, map_err,
  if◌then◌else◌,
}
use tari_vault.Domain.Proof.{SerdeJson, PlaintextProof, from_json, into_json}
use tari_vault.Vault.History.{Call, store, retrieve, delete}
use tari_vault.Vault.Tasks.Alone.{Outcome, proof, removal, count}
use tari_vault.Rpc.{ErrorObject, vault_to_rpc_err, StoreProofParams, too_large}
use tari_vault.Rpc.Jsonrpsee.{Ambient, Reply, token, object, nothing, document, Jsonrpsee}
use tari_vault.Rpc.Methods.{spec_error, store_name, retrieve_name, delete_name, discover_name}

pub data Opening (serde : SerdeJson) : Type 0 where
  replies : Result ErrorObject (Reply serde) → Opening serde
  calls : Call → Opening serde

module _ (serde : SerdeJson) where
  abbrev pub and_store :
      Ambient → StoreProofParams serde → Result ErrorObject PlaintextProof → Opening serde
  and_store a p (ok plain) = calls (store a.draws a.clock plain p.expires_in_secs)
  and_store a p (err e) = replies (err e)
  and_store a p panic = replies panic

  unfoldable pub open_store :
      ℕ → Ambient → Result ErrorObject (StoreProofParams serde) → Opening serde
  open_store max a (ok p) =
      if ltb max (length (serde.to_string p.proof_json))
      then replies (err (vault_to_rpc_err (too_large max)))
      else and_store a p (map_err vault_to_rpc_err (from_json serde p.proof_json))
  open_store max a (err e) = replies (err e)
  open_store max a panic = replies panic

  unfoldable pub open_retrieve : Ambient → Result ErrorObject Bytes → Opening serde
  open_retrieve a (ok claim_id) = calls (retrieve a.now claim_id)
  open_retrieve a (err e) = replies (err e)
  open_retrieve a panic = replies panic

  unfoldable pub open_delete : Ambient → Result ErrorObject Bytes → Opening serde
  open_delete a (ok claim_id) = calls (delete a.now claim_id)
  open_delete a (err e) = replies (err e)
  open_delete a panic = replies panic

  abbrev pub mapped :
      {A : Type 0} → (A → Reply serde) → Result ErrorObject A → Result ErrorObject (Reply serde)
  mapped f (ok x) = ok (f x)
  mapped f (err e) = err e
  mapped f panic = panic

  -- What the client is told once its call is answered.
  unfoldable pub reply_for : Outcome → Option (Result ErrorObject (Reply serde))
  reply_for (Outcome.token r) = some (mapped token (map_err vault_to_rpc_err r))
  reply_for (proof (ok p)) = some (
      mapped (λ v. object (record { proof_json = v }))
        (map_err vault_to_rpc_err (into_json serde p)))
  reply_for (proof (err e)) = some (err (vault_to_rpc_err e))
  reply_for (proof panic) = some panic
  reply_for (removal r) = some (mapped (λ x. nothing) (map_err vault_to_rpc_err r))
  reply_for (count r) = none

  abbrev pub reply_if : Option Outcome → Option (Result ErrorObject (Reply serde))
  reply_if none = none
  reply_if (some o) = reply_for o

module _ {S : Type 0} (serde : SerdeJson) (rpc : Jsonrpsee serde S) (max : ℕ)
    (openrpc_spec : Bytes) where
  unfoldable pub discovering : Opening serde
  discovering = replies (mapped serde document (map_err spec_error (serde.from_str openrpc_spec)))

  -- The method of this name begins.
  unfoldable pub open_method : Bytes → Ambient → rpc.Params → Option (Opening serde)
  unfolding open_store open_retrieve open_delete discovering
  open_method n a params =
      if bytes_eq discover_name n
      then some discovering
      else if bytes_eq delete_name n
      then some (open_delete serde a (rpc.claim_id_param params))
      else if bytes_eq retrieve_name n
      then some (open_retrieve serde a (rpc.claim_id_param params))
      else if bytes_eq store_name n
      then some (open_store serde max a (rpc.store_params params))
      else none
