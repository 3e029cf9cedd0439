-- ===== src/Transfers/Complete/Final.antt =====
-- A settled transfer is final.
use lenz.Prelude.{
  ◌≡◌, refl, sym, subst, String, Bool, true, false, some, not, ◌⊎◌, inl, inr, ◌&&◌, ◌||◌, ◌==◌,
  eq_iff, arith, if◌then◌else◌,
}
use lenz.Prelude.Int.{ℤ, eqb_ℤ, eq_of_parts}
use lenz.Prelude.Table.{find}
use lenz.Prelude.Text.{trim_space}
use lenz.Model.{is_pending, is_outbound, Transfer, RecordTransferInput, Error}
use lenz.Tx.{Store, Result, ok, err, ◌>>=◌, with_tx}
use lenz.ProviderEvents.{is_transfer}
use lenz.Transfers.{get_transfer}
use lenz.Transfers.Complete.{
  complete_external_outbound, complete_external_outbound_transfer, differs_outbound,
  differs_in_fingerprint,
}

-- An identifier that the completion needs is missing.
abbrev is_incomplete : String → RecordTransferInput → Bool
is_incomplete id input =
    trim_space id == ""
    || input.institution_id == ""
    || input.account_id == ""
    || input.clearing_account_id == ""

-- The completion, written as one test after the other.
complete_external_outbound_transfer-settled :
    (id : String) (input : RecordTransferInput) (s : Store) (t : Transfer)
    → find (is_transfer input.institution_id (trim_space id)) s.transfers ≡ some t
    → is_pending t.status ≡ false
    → complete_external_outbound_transfer id input s ≡ (
        if is_incomplete id input
        then (err Error.invalid_request, s)
        else if differs_outbound t input || differs_in_fingerprint t input
        then (err Error.conflict, s)
        else (ok t, s))
unfolding complete_external_outbound_transfer complete_external_outbound get_transfer with_tx ◌>>=◌
complete_external_outbound_transfer-settled id input s t found settled =
    ground (arith, found, settled)

-- The input is about the transfer: the same outbound payment of the same account, and the same
-- request where both say which one they come from.
abbrev pub IsAbout : Transfer → RecordTransferInput → Type 0
IsAbout t input =
    (is_outbound t.direction ≡ true)
    × (t.account_id ≡ input.account_id)
    × (t.amount_minor ≡ input.amount_minor)
    × (t.currency_id ≡ input.currency_id)
    × (t.provider ≡ input.provider)
    × ((input.request_fingerprint ≡ "")
        ⊎ ((t.request_fingerprint ≡ "") ⊎ (input.request_fingerprint ≡ t.request_fingerprint)))

-- What a completion may do to a transfer that is final.
abbrev pub IsFinal : Transfer → RecordTransferInput → Store → Result Transfer × Store → Type 0
IsFinal t input s (ok result, s') = (s' ≡ s) × (result ≡ t) × IsAbout t input
IsFinal t input s (err e, s') = (s' ≡ s) × ((e ≡ Error.invalid_request) ⊎ (e ≡ Error.conflict))

all_hold :
    (a b c d e : Bool)
    → (not a || not b || not c || not d || not e) ≡ false
    → (a ≡ true) × (b ≡ true) × (c ≡ true) × (d ≡ true) × (e ≡ true)
all_hold a b c d e h = ground arith

one_holds :
    (a b c : Bool) → (not a && not b && not c) ≡ false → (a ≡ true) ⊎ ((b ≡ true) ⊎ (c ≡ true))
one_holds a b c h = ground arith

of_eqb_ℤ : (a b : ℤ) → eqb_ℤ a b ≡ true → a ≡ b
of_eqb_ℤ a b h = eq_of_parts a b (ground arith)

no_difference-IsAbout :
    (t : Transfer) (input : RecordTransferInput)
    → differs_outbound t input ≡ false
    → differs_in_fingerprint t input ≡ false
    → IsAbout t input
no_difference-IsAbout t input h k =
    let same = all_hold _ _ _ _ _ h in
    (
      same.0,
      (eq_iff t.account_id input.account_id).0 same.1,
      of_eqb_ℤ t.amount_minor input.amount_minor same.2,
      (eq_iff t.currency_id input.currency_id).0 same.3,
      (eq_iff t.provider input.provider).0 same.4,
      elim (one_holds _ _ _ k) [
        | inl unnamed ↦ inl ((eq_iff input.request_fingerprint "").0 unnamed)
        | inr (inl unnamed) ↦ inr (inl ((eq_iff t.request_fingerprint "").0 unnamed))
        | inr (inr same) ↦
            inr (inr ((eq_iff input.request_fingerprint t.request_fingerprint).0 same))
      ],
    )

tested-IsFinal :
    (t : Transfer) (input : RecordTransferInput) (s : Store) (b c d : Bool)
    → (c ≡ false → d ≡ false → IsAbout t input)
    → IsFinal t input s (
        if b
        then (err Error.invalid_request, s)
        else if c || d
        then (err Error.conflict, s)
        else (ok t, s))
tested-IsFinal t input s true c d h = (refl, inl refl)
tested-IsFinal t input s false true d h = (refl, inr refl)
tested-IsFinal t input s false false true h = (refl, inr refl)
tested-IsFinal t input s false false false h = (refl, refl, h refl refl)

-- The completion of a transfer that is no longer pending changes nothing. If it returns, it returns
-- the transfer, and the input is about this transfer: an outbound one, with the same account, amount,
-- currency and provider, and with the same fingerprint unless one of them is blank. If it fails, it
-- is for an invalid request or a conflict.
pub complete_external_outbound_transfer-IsFinal :
    (id : String) (input : RecordTransferInput) (s : Store) (t : Transfer)
    → find (is_transfer input.institution_id (trim_space id)) s.transfers ≡ some t
    → is_pending t.status ≡ false
    → IsFinal t input s (complete_external_outbound_transfer id input s)
complete_external_outbound_transfer-IsFinal id input s t found settled =
    subst (IsFinal t input s)
      (sym (complete_external_outbound_transfer-settled id input s t found settled))
      (tested-IsFinal t input s _ _ _ (no_difference-IsAbout t input))
