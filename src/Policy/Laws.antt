-- ===== src/Policy/Laws.antt =====
-- What the policy refuses of a transfer.
use lenz.Prelude.{◌≡◌, Bool, true, false, ◌&&◌, ◌||◌, arith, if◌then◌else◌}
use lenz.Model.{
  AccountStatus, is_customer, is_outbound, is_frozen, is_closed, Account, RecordTransferInput,
  Error,
}
use lenz.Tx.{Store, ok, err, ◌>>=◌}
use lenz.Policy.{enforce_transfer_controls}

-- A customer's account that takes no part in transfers.
abbrev pub is_blocked : Account → Bool
is_blocked a = is_customer a.kind && (is_frozen a.status || is_closed a.status)

abbrev pub refuses_debits : Account → Bool
refuses_debits a =
    is_customer a.kind && (elim a.status [ AccountStatus.post_no_debit ↦ true | _ ↦ false ])

-- The controls refuse a transfer exactly if either account is a customer's that is frozen or closed,
-- or if the transfer is outbound and its primary account is a customer's that takes no debits; else
-- they change nothing. So a counterparty's account that takes no debits is never refused for it, nor
-- is the primary account of an inbound transfer.
pub enforce_transfer_controls_lem :
    (input : RecordTransferInput) (account clearing : Account) (s : Store)
    → enforce_transfer_controls input account clearing s ≡ (
        if is_blocked account
          || is_blocked clearing
          || (refuses_debits account && is_outbound input.direction)
        then err Error.invalid_request
        else ok (tt, s))
unfolding enforce_transfer_controls ◌>>=◌
enforce_transfer_controls_lem input account clearing s = ground arith
