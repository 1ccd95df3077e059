-- ===== src/Rpc/Asked.antt =====
-- Which call of the vault the handlers of src/rpc/server.rs and src/rpc/api.rs make of a method's name
-- and parameters.
use tari_vault.Base.{ℕ, ◌≤◌, Bytes, ◌≡◌, length, ok}
use tari_vault.Domain.Proof.{SerdeJson, from_json}
use tari_vault.Vault.History.{Call, store, retrieve, delete, sweep}
use tari_vault.Rpc.{StoreProofParams}
use tari_vault.Rpc.Jsonrpsee.{Jsonrpsee}
use tari_vault.Rpc.Methods.{store_name, retrieve_name, delete_name}

module _ {S : Type 0} (serde : SerdeJson) (rpc : Jsonrpsee serde S) (max : ℕ) where
  abbrev pub MadeFrom : Bytes → rpc.Params → Call → Type 0
  MadeFrom name params (store e clock proof ttl) =
      (name ≡ store_name)
      × ((p : StoreProofParams serde) × (rpc.store_params params ≡ ok p)
          × (length (serde.to_string p.proof_json) ≤ max)
          × (from_json serde p.proof_json ≡ ok proof)
          × (ttl ≡ p.expires_in_secs))
  MadeFrom name params (retrieve now text) =
      (name ≡ retrieve_name) × (rpc.claim_id_param params ≡ ok text)
  MadeFrom name params (delete now text) =
      (name ≡ delete_name) × (rpc.claim_id_param params ≡ ok text)
  MadeFrom name params (sweep now) = ⊥
