-- ===== src/Examples/Doors.antt =====
-- Tokens, the SQLite store, the authorization layer, the background task, the handlers and the start
-- of the process, at concrete inputs.
use Prim.Native.String.{String}
use tari_vault.Base.{
  List, ◌++◌, ℕ, suc, ◌-◌, bytes_eq, false, none, some, [], ◌∷◌, ◌++◌, ◌≡◌, refl, ok, err, ok_or,
  Exec, length, arith, ◌⊎◌, if◌then◌else◌,
}
use tari_vault.Error.{VaultError, storage, not_found}
use tari_vault.Domain.Chrono.{Instant}
use tari_vault.Domain.ClaimId.{IsClaim, encode}
use tari_vault.Domain.ClaimId.Codec.{decode_sound}
use tari_vault.Storage.Backend.{StorageBackend, is_some, swept}
use tari_vault.Storage.Sqlite.{Database}
use tari_vault.Storage.Sqlite.Intact.{table, view}
use tari_vault.Storage.Sqlite.Refines.{sqlite_refines}
use tari_vault.Auth.{
  Request, Response, from_config, call, Carries, bearer, unauthorized, call-from_config,
}
use tari_vault.Cleanup.{
  Signal, stop, tick, poll, answer, CleanupTask, spawn_cleanup_task, run, standing, wound_up,
}
use tari_vault.Cleanup.Stopping.{run-cancel}
use tari_vault.Examples.Toy.{engine, calendar, crates}
use tari_vault.Examples.Shop.{
  uuid, claim, token, decode-token, kept, kept-Fits, empty, empty-IsIntact,
}

decode_sound_example : IsClaim claim × (encode engine claim ≡ token)
decode_sound_example = decode_sound engine token claim decode-token

abbrev proofs : StorageBackend Database
proofs = table calendar

sqlite_refines_example :
    (((proofs.insert uuid kept empty).0 ≡ ok tt)
      × (view calendar (proofs.insert uuid kept empty).1 uuid
          ≡ (if bytes_eq uuid uuid then some kept else view calendar empty uuid)))
    × (((proofs.fetch uuid empty).0 ≡ ok_or not_found (view calendar empty uuid))
        × (view calendar (proofs.fetch uuid empty).1 uuid ≡ view calendar empty uuid))
    × (((proofs.delete uuid empty).0 ≡ ok (is_some (view calendar empty uuid)))
        × (view calendar (proofs.delete uuid empty).1 uuid
            ≡ (if bytes_eq uuid uuid then none else view calendar empty uuid)))
    × (((proofs.delete_expired 5000 empty).0
          ≡ ok (length empty.rows - length (proofs.delete_expired 5000 empty).1.rows))
        × (view calendar (proofs.delete_expired 5000 empty).1 uuid
            ≡ swept 5000 (view calendar empty uuid)))
sqlite_refines_example =
    sqlite_refines calendar uuid uuid kept 5000 empty kept-Fits (ground arith) empty-IsIntact

-- A service that counts its calls.
abbrev counting : Request → Exec ℕ String Response
counting req n = (ok (record { status = 200; www_authenticate = none; body = req.body }), suc n)

abbrev request : Request
request = record { authorization = some (bearer ++ b's' ∷ []); body = [] }

call-from_config_example :
    (Carries crates (b's' ∷ []) request
      × (call crates (from_config (some (b's' ∷ []))) counting request 3 ≡ counting request 3))
    ⊎ ((¬ Carries crates (b's' ∷ []) request)
        × (call crates (from_config (some (b's' ∷ []))) counting request 3 ≡ (ok unauthorized, 3)))
call-from_config_example = call-from_config crates counting b's' [] request 3

-- A sweep that counts the sweeps, and fails.
abbrev sweeper : Instant → Exec ℕ VaultError ℕ
sweeper now n = (err (storage not_found), suc n)

abbrev task : CleanupTask ℕ
task = spawn_cleanup_task sweeper false 0

-- The second sweep is under way when the task is stopped.
abbrev under_way : List Signal
under_way = poll ∷ answer 1 ∷ tick ∷ poll ∷ []

run-cancel_example :
    standing sweeper (run sweeper (under_way ++ stop ∷ tick ∷ answer 2 ∷ poll ∷ []) task)
    ≡ wound_up sweeper
        (run sweeper under_way task).phase
        (tick ∷ answer 2 ∷ poll ∷ [])
        (run sweeper under_way task).store
run-cancel_example = run-cancel sweeper under_way (tick ∷ answer 2 ∷ poll ∷ []) stop task refl
