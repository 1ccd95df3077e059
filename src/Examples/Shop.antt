-- ===== src/Examples/Shop.antt =====
-- One proof under one claim, and a SQLite store without and with its record.
use tari_vault.Base.{
  Bytes, IsArray, replicate, bytes_eq_refl, false, some, [], ◌∷◌, ◌≡◌, refl, ok, arith,
}
use tari_vault.Domain.Record.{StoredRecord, is_expired}
use tari_vault.Domain.Proof.{PlaintextProof}
use tari_vault.Domain.ClaimId.{ClaimId, IsClaim, encode, decode}
use tari_vault.Domain.ClaimId.Codec.{decode-encode}
use tari_vault.Storage.Backend.{Contract}
use tari_vault.Storage.Sqlite.{Database}
use tari_vault.Storage.Sqlite.Laws.{Fits}
use tari_vault.Storage.Sqlite.Intact.{table, IsIntact}
use tari_vault.Storage.Sqlite.Refines.{sqlite_contract, IsHealthy-of_intact, accepted_of}
use tari_vault.Vault.{Entropy, IsEntropy, StoreClock}
use tari_vault.Vault.Spec.{storing}
use tari_vault.Examples.Toy.{engine, calendar, suite}

abbrev pub uuid : Bytes
uuid = replicate 16 7

abbrev pub key : Bytes
key = replicate 32 9

abbrev pub draws : Entropy
draws = record { key = key; nonce = replicate 12 1; uuid = uuid }

pub uuid-IsArray : IsArray 16 uuid
uuid-IsArray = record { size = refl; bytes = ground arith }

pub key-IsArray : IsArray 32 key
key-IsArray = record { size = refl; bytes = ground arith }

pub draws-IsEntropy : IsEntropy draws
draws-IsEntropy = record {
  key_array = key-IsArray;
  nonce_array = record { size = refl; bytes = ground arith };
  uuid_array = uuid-IsArray;
}

abbrev pub clock : StoreClock
clock = record { at_expiry = 1000; at_stored = 1001 }

abbrev pub proof : PlaintextProof
proof = record { contents = b'{' ∷ b'}' ∷ [] }

abbrev pub claim : ClaimId
claim = record { record_id = uuid; encryption_key = key }

pub claim-IsClaim : IsClaim claim
claim-IsClaim = record { id_array = uuid-IsArray; key_array = key-IsArray }

abbrev pub token : Bytes
token = encode engine claim

pub decode-token : decode engine token ≡ ok claim
decode-token = decode-encode engine claim claim-IsClaim

-- The record that is made with a lifetime of a minute.
abbrev pub kept : StoredRecord
kept = record {
  encrypted = record { nonce = replicate 12 1; ciphertext = b'{' ∷ b'}' ∷ [] };
  stored_at = 1001;
  expires_at = some 60000001000;
}

pub kept_lem : storing suite draws clock proof (some 60) ≡ ok kept
kept_lem = refl

pub kept_live : is_expired 5000 kept ≡ false
unfolding is_expired
kept_live = refl

pub kept-Fits : Fits calendar kept
kept-Fits = record { stored_fits = (ground arith, ground arith); expiry_fits = ground arith }

abbrev pub contract : Contract (table calendar)
contract = sqlite_contract calendar

pub kept-IsAccepted : contract.IsAccepted kept
kept-IsAccepted = accepted_of calendar kept kept-Fits

abbrev pub empty : Database
empty = record { rows = []; faults = [] }

pub empty-IsIntact : IsIntact calendar empty
empty-IsIntact = record { same = refl; keyed = tt; readable = tt }

pub empty-IsHealthy : contract.IsHealthy empty
empty-IsHealthy = IsHealthy-of_intact calendar empty empty-IsIntact

abbrev pub stocked : Database
stocked = ((table calendar).insert uuid kept empty).1

pub stocked-IsHealthy : contract.IsHealthy stocked
stocked-IsHealthy =
    contract.insert-IsHealthy uuid kept empty uuid-IsArray kept-IsAccepted empty-IsHealthy

pub view-stocked : contract.view stocked uuid ≡ some kept
view-stocked = rw bytes_eq_refl at (
    contract.view-insert uuid kept empty uuid-IsArray kept-IsAccepted empty-IsHealthy uuid
      uuid-IsArray)
