-- ===== src/Vault/Map/Turns.antt =====
-- A task of src/vault/proof_vault.rs that takes its turns in a row, against the machine of Vault/Map.antt.
use tari_vault.Base.{◌≡◌, refl, ◌∙◌, subst, sym, some}
use tari_vault.Storage.Backend.{StorageBackend, Contract}
use tari_vault.Vault.{Crypto}
use tari_vault.Vault.History.{Call, store, retrieve, delete, sweep, after, IsAdmissible}
use tari_vault.Vault.Tasks.{begin, advance}
use tari_vault.Vault.Tasks.Alone.{Outcome, outcome, at_once, begin-at_once}
use tari_vault.Vault.Tasks.Alone
use tari_vault.Vault.Map.{
  Records, Answer, token, proof, removal, swept_up, forget, answered_by, left_by, answer,
}
use tari_vault.Vault.Map.Refines.{Holds, call-Follows}

abbrev pub answer_of : Outcome → Answer
answer_of (Alone.token r) = token r
answer_of (Alone.proof r) = proof r
answer_of (Alone.removal r) = removal r
answer_of (Alone.count r) = swept_up (forget r)

module _ {S : Type 0} (crypto : Crypto) (backend : StorageBackend S) (c : Contract backend) where
  at_once-answer :
      (call : Call) (s : S)
      → (answer_of (at_once crypto backend call s).0 ≡ answer crypto backend call s)
        × ((at_once crypto backend call s).1 ≡ after crypto backend call s)
  unfolding answer after
  at_once-answer (store e clock p ttl) s = (refl, refl)
  at_once-answer (retrieve now text) s = (refl, refl)
  at_once-answer (delete now text) s = (refl, refl)
  at_once-answer (sweep now) s = (refl, refl)

  -- Over a healthy backend that holds the records of a map: a task of any call that the contract admits,
  -- cut where it awaits the backend, has answered after two turns in a row as the map answers the call,
  -- but for the number of a sweep, and the backend is healthy and holds the records that the call leaves
  -- of the map.
  pub turns_follow_the_map :
      (call : Call) (s : S) (m : Records)
      → IsAdmissible crypto backend c call
      → Holds crypto backend c s m
      → let one = advance crypto backend (begin call) s in
        let two = advance crypto backend one.0 one.1 in
        ((o : Outcome) × (outcome two.0 ≡ some o) × (answer_of o ≡ answered_by crypto call m))
        × Holds crypto backend c two.1 (λ j. left_by crypto call j (m j))
  turns_follow_the_map call s m allowed h =
      let (told, left) = begin-at_once crypto backend call s in
      let (same, state) = at_once-answer call s in
      let follows = call-Follows crypto backend c call s m allowed h in
      (
        ((at_once crypto backend call s).0, told, same ∙ follows.answers),
        subst (λ x. Holds crypto backend c x (λ j. left_by crypto call j (m j)))
            (sym (left ∙ state)) follows.holds,
      )
