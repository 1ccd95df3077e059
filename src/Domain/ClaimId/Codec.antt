-- ===== src/Domain/ClaimId/Codec.antt =====
-- The token format of src/domain/claim_id.rs: what `encode` writes, and which texts `decode` takes.
use tari_vault.Base.{
  ℕ, Bytes, IsByte, All, All-append, All-take, All-drop, take, drop, length, length-append,
  length-take, length-drop, take-append, drop-append, take-append-drop, ◌≡◌, ap, ◌∙◌, ◌++◌, ◌==◌,
  none, some, Option-cases, Bool-cases, inl, inr, ok, err, arith, ◌⊎◌, ==_iff, subst,
}
use tari_vault.Error.{invalid_claim_id}
use tari_vault.Domain.Base64.{Base64}
use tari_vault.Domain.ClaimId.{
  ClaimId, IsClaim, claim_id_bytes, record_id_len, encode, decode, split,
}

split_joined : (k : ℕ) (a b : Bytes) → length a ≡ k → (take k (a ++ b) ≡ a) × (drop k (a ++ b) ≡ b)
split_joined k a b h =
    subst (λ n. (take n (a ++ b) ≡ a) × (drop n (a ++ b) ≡ b)) h (take-append a b, drop-append a b)

module _ (b64 : Base64) where
  split_claim :
      (c : ClaimId) → IsClaim c → split b64 (some (c.record_id ++ c.encryption_key)) ≡ ok c
  unfolding split
  split_claim c v =
      let size : length (c.record_id ++ c.encryption_key) ≡ 48 =
        omega (arith, length-append c.record_id c.encryption_key) in
      let (front, back) = split_joined 16 c.record_id c.encryption_key v.id_array.size in
      rw ((==_iff _ claim_id_bytes).1 size, front, back)

  -- A claim whose fields have 16 and 32 bytes is decoded from its token.
  pub decode-encode : (c : ClaimId) → IsClaim c → decode b64 (encode b64 c) ≡ ok c
  unfolding decode encode
  decode-encode c v =
      let joined : All IsByte (c.record_id ++ c.encryption_key) =
        All-append IsByte c.record_id c.encryption_key v.id_array.bytes v.key_array.bytes in
      rw (b64.of_text-to_text _ joined) (split_claim c v)

  abbrev cut : Bytes → ClaimId
  cut bytes = record {
    record_id = take record_id_len bytes;
    encryption_key = drop record_id_len bytes;
  }

  abbrev Decoded : Bytes → ClaimId → Type 0
  Decoded bytes c = IsClaim c × (c.record_id ++ c.encryption_key ≡ bytes)

  cut-Decoded : (bytes : Bytes) → All IsByte bytes → length bytes ≡ 48 → Decoded bytes (cut bytes)
  cut-Decoded bytes h size = (
    record {
      id_array = record {
        size = length-take 16 bytes (omega arith);
        bytes = All-take IsByte 16 bytes h;
      };
      key_array = record {
        size = omega (arith, length-drop 16 bytes);
        bytes = All-drop IsByte 16 bytes h;
      };
    },
    take-append-drop 16 bytes,
  )

  split_sound :
      (bytes : Bytes) (c : ClaimId)
      → All IsByte bytes
      → split b64 (some bytes) ≡ ok c
      → Decoded bytes c
  unfolding split
  split_sound bytes c h e = elim (Bool-cases (length bytes == claim_id_bytes)) [
    | inl fits ↦
        let size : length bytes ≡ 48 = (==_iff _ _).0 fits in
        let same : cut bytes ≡ c = cc (rw fits at e) in
        subst (λ d. Decoded bytes d) same (cut-Decoded bytes h size)
    | inr other ↦ let impossible : err invalid_claim_id ≡ ok c = rw other at e in cc
  ]

  -- A text that `decode` takes is what `encode` writes for the claim, and the claim's fields have
  -- 16 and 32 bytes.
  pub decode_sound :
      (s : Bytes) (c : ClaimId) → decode b64 s ≡ ok c → IsClaim c × (encode b64 c ≡ s)
  unfolding decode encode
  decode_sound s c e = elim (Option-cases (b64.of_text s)) [
    | inl none_left ↦
        let impossible : split b64 none ≡ ok c = rw none_left at e in unfold split in cc
    | inr (bytes, read) ↦
        let (valid, joined) = split_sound bytes c (b64.of_text-All s bytes read) (rw read at e) in
        (valid, ap b64.to_text joined ∙ b64.to_text-of_text s bytes read)
  ]

  -- Every text is either decoded to a claim or refused as an invalid claim id.
  pub decode_cases :
      (s : Bytes) → ((c : ClaimId) × (decode b64 s ≡ ok c)) ⊎ (decode b64 s ≡ err invalid_claim_id)
  unfolding decode split
  decode_cases s = elim (Option-cases (b64.of_text s)) [
    | inl e ↦ inr (rw e)
    | inr (bytes, e) ↦ elim (Bool-cases (length bytes == claim_id_bytes)) [
      | inl fits ↦ inl (cut bytes, rw (e, fits))
      | inr other ↦ inr (rw (e, other))
    ]
  ]
