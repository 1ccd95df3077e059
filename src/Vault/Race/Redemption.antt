-- ===== src/Vault/Race/Redemption.antt =====
-- Vault.Race: two callers with one token, when their turns alternate and when they do not.
use tari_vault.Base.{
  Bytes, bytes_eq_refl, ◌≡◌, refl, ◌∙◌, true, false, none, some, [], ◌∷◌, ok, err, ◌==◌, length,
  ==_iff,
}
use tari_vault.Error.{proof_not_found}
use tari_vault.Domain.Chrono.{Instant}
use tari_vault.Domain.Record.{StoredRecord, is_expired}
use tari_vault.Domain.Proof.{from_bytes}
use tari_vault.Domain.ClaimId.{ClaimId, IsClaim, decode}
use tari_vault.Domain.ClaimId.Codec.{decode_sound}
use tari_vault.Storage.Backend.{StorageBackend, Contract}
use tari_vault.Vault.{Crypto, fetch_error, open_record, array_of}
use tari_vault.Vault.Race.{asked, consuming, finished, advance, interleave}

module _ {S : Type 0} (crypto : Crypto) (backend : StorageBackend S) (c : Contract backend) where
  module _ (now : Instant) (token : Bytes) (claim : ClaimId)
      (d : decode crypto.base64 token ≡ ok claim) where
    abbrev id : Bytes
    id = claim.record_id

    -- The record can be handed out: it is live, and opens under the claim's key.
    pub record IsRedeemable (plain : Bytes) (r : StoredRecord) : Type 0 where
      pub live : is_expired now r ≡ false
      pub whole : length r.nonce ≡ 12
      pub opens : crypto.aead.decrypt claim.encryption_key r.nonce r.ciphertext ≡ some plain

    valid : IsClaim claim
    valid = (decode_sound crypto.base64 token claim d).0

    pub advance-asked :
        (plain : Bytes) (r : StoredRecord) (s : S)
        → IsRedeemable plain r
        → c.IsHealthy s
        → c.view s id ≡ some r
        → advance crypto backend now (asked token) s ≡ (consuming id plain, (backend.fetch id s).1)
    unfolding advance open_record array_of
    advance-asked plain r s w h there =
        let whole_key : (length claim.encryption_key == 32) ≡ true =
          (==_iff _ _).1 valid.key_array.size in
        let whole_nonce : (length r.nonce == 12) ≡ true = (==_iff _ _).1 w.whole in
        rw (d, c.fetch-view id s valid.id_array h, there, w.live, whole_nonce, whole_key, w.opens)

    pub advance-consuming :
        (plain : Bytes) (s : S)
        → c.IsHealthy s
        → advance crypto backend now (consuming id plain) s
          ≡ (finished (ok (record { contents = plain })), (backend.delete id s).1)
    unfolding advance from_bytes
    advance-consuming plain s h = rw (c.delete-is_some id s valid.id_array h)

    advance-missing :
        (s : S)
        → c.IsHealthy s
        → c.view s id ≡ none
        → advance crypto backend now (asked token) s
          ≡ (finished (err proof_not_found), (backend.fetch id s).1)
    unfolding advance fetch_error
    advance-missing s h e = rw (d, c.fetch-view id s valid.id_array h, e)

    -- Over a healthy backend, when the record can be redeemed: two callers with one token, whose
    -- turns alternate, are both handed the proof.
    pub double_redemption :
        (plain : Bytes) (r : StoredRecord) (s : S)
        → IsRedeemable plain r
        → c.IsHealthy s
        → c.view s id ≡ some r
        → let (p, q, s') =
            interleave crypto backend now
              (true ∷ false ∷ true ∷ false ∷ [])
              (asked token)
              (asked token)
              s in
          (p ≡ finished (ok (record { contents = plain })))
          × (q ≡ finished (ok (record { contents = plain })))
    unfolding interleave
    double_redemption plain r s w h there =
        let h1 = c.fetch-IsHealthy id s h in
        let there1 : c.view (backend.fetch id s).1 id ≡ some r = c.view-fetch id s h id ∙ there in
        let h2 = c.fetch-IsHealthy id _ h1 in
        let h3 = c.delete-IsHealthy id _ valid.id_array h2 in
        rw
          (
            advance-asked plain r s w h there,
            advance-asked plain r (backend.fetch id s).1 w h1 there1,
            advance-consuming plain _ h2,
            advance-consuming plain _ h3,
          )
          (refl, refl)

    -- Over a healthy backend, when the record can be redeemed: of two callers with one token, the
    -- first of which takes both its turns before the second, the first is handed the proof and the
    -- second is told that there is none.
    pub serial_redemption :
        (plain : Bytes) (r : StoredRecord) (s : S)
        → IsRedeemable plain r
        → c.IsHealthy s
        → c.view s id ≡ some r
        → let (p, q, s') =
            interleave crypto backend now
              (true ∷ true ∷ false ∷ false ∷ [])
              (asked token)
              (asked token)
              s in
          (p ≡ finished (ok (record { contents = plain }))) × (q ≡ finished (err proof_not_found))
    unfolding interleave
    serial_redemption plain r s w h there =
        let h1 = c.fetch-IsHealthy id s h in
        let h2 = c.delete-IsHealthy id _ valid.id_array h1 in
        let gone : c.view (backend.delete id (backend.fetch id s).1).1 id ≡ none =
          rw bytes_eq_refl at (c.view-delete id _ valid.id_array h1 id valid.id_array) in
        rw
          (
            advance-asked plain r s w h there,
            advance-consuming plain _ h1,
            advance-missing _ h2 gone,
          )
          (unfold advance in (refl, refl))
