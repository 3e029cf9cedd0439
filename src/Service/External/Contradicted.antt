-- ===== src/Service/External/Contradicted.antt =====
-- An answer to a requery whose two statuses contradict each other, as the mock gives it for a delayed
-- transfer whose time has come.
use lenz.Prelude.{◌≡◌, refl, ℕ, String, Bool, true, false, some}
use lenz.Prelude.Int.{ℤ, pos, ltb_ℤ}
use lenz.Model.{normalize_status, Status, Transfer, ProviderTransferResult, Error}
use lenz.Tx.{Store, Tx, err, fail_if, ◌>>=◌}
use lenz.Provider.MockNip.{ripened}
use lenz.Service.External.Inputs.{are_contradictory, external_transfer_requery_completion_input}

three_conflicts :
    {A : Type 0} (b c d : Bool) (k : Unit {0} → Tx A) (s : Store)
    → d ≡ true
    → (fail_if b Error.conflict >>= λ _.
          fail_if c Error.conflict >>= λ _. fail_if d Error.conflict >>= k)
        s
      ≡ err Error.conflict
unfolding fail_if ◌>>=◌
three_conflicts true c d k s h = refl
three_conflicts false true d k s h = refl
three_conflicts false false d k s h = rw h refl

contradictory :
    (stated provider : Status)
    → stated ≡ Status.succeeded
    → provider ≡ Status.pending
    → are_contradictory (normalize_status stated) (normalize_status provider) ≡ true
unfolding normalize_status
contradictory stated provider e f = rw (e, f) refl

pub refused :
    (r : ProviderTransferResult) (transfer : Transfer) (clearing reference note : String)
    (s : Store)
    → r.status ≡ Status.succeeded
    → r.provider_status ≡ Status.pending
    → external_transfer_requery_completion_input transfer clearing reference note r s
      ≡ err Error.conflict
unfolding external_transfer_requery_completion_input
refused r transfer clearing reference note s e f =
    three_conflicts _ _ _ _ s (contradictory r.status r.provider_status e f)

pub ripened_status :
    (now : ℕ) (result : ProviderTransferResult) (until : ℤ)
    → result.status ≡ Status.pending
    → result.delayed ≡ true
    → result.delayed_until ≡ some until
    → ltb_ℤ (pos now) until ≡ false
    → (ripened now result).status ≡ Status.succeeded
unfolding ripened
ripened_status now result until pending delayed stated come =
    rw (stated, delayed, come, pending) refl

pub ripened_provider_status :
    (now : ℕ) (result : ProviderTransferResult) (until : ℤ)
    → result.provider_status ≡ Status.pending
    → result.delayed ≡ true
    → result.delayed_until ≡ some until
    → ltb_ℤ (pos now) until ≡ false
    → (ripened now result).provider_status ≡ Status.pending
unfolding ripened
ripened_provider_status now result until pending delayed stated come =
    rw (stated, delayed, come, pending) refl
