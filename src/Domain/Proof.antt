-- ===== src/Domain/Proof.antt =====
-- src/domain/proof.rs. `serde_json` is a parameter: its values, its printer and its parser.
use Prim.Native.String.{String}
use tari_vault.Base.{Bytes, Result, ok, err, map_err}
use tari_vault.Error.{VaultError, serialization}

-- The `Err` of these functions carries the text of the `serde_json::Error`.
pub record SerdeJson : Type 1 where
  pub Value : Type 0
  pub to_string : Value → Bytes
  pub to_vec : Value → Result String Bytes
  pub from_slice : Bytes → Result String Value
  pub from_str : Bytes → Result String Value

pub record PlaintextProof : Type 0 where
  pub contents : Bytes

unfoldable pub from_bytes : Bytes → PlaintextProof
from_bytes b = record { contents = b }

unfoldable pub as_bytes : PlaintextProof → Bytes
as_bytes p = p.contents

module _ (serde : SerdeJson) where
  open serde use {Value, to_vec, from_slice}

  of_serialized : Result String Bytes → Result VaultError PlaintextProof
  of_serialized (ok bytes) = ok (record { contents = bytes })
  of_serialized (err e) = err (serialization e)
  of_serialized Result.panic = Result.panic

  unfoldable pub from_json : Value → Result VaultError PlaintextProof
  unfolding of_serialized
  from_json v = of_serialized (to_vec v)

  unfoldable pub into_json : PlaintextProof → Result VaultError Value
  into_json p = map_err serialization (from_slice p.contents)
