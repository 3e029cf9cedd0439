-- ===== src/ProviderEvents.antt =====
-- The events of a provider that were seen (corebanking/sql_provider_event_repository.go).
use lenz.Prelude.{
  ℕ, String, Bool, true, false, Option, none, some, not, ◌&&◌, ◌||◌, ◌==◌, eqb, if◌then◌else◌,
}
use lenz.Prelude.Table.{find, insert, update, count}
use lenz.Model.{ProviderEvent, Transfer, RecordTransferInput, Error}
use lenz.Tx.{Tx, pure, gets, require, fail_if, if_found, modify, new_id, ◌>>=◌, ◌>>◌}
use lenz.Fingerprint.{transfer_request_fingerprint}

abbrev pub is_event : String → String → String → ProviderEvent → Bool
is_event institution_id provider provider_event_id e =
    e.institution_id == institution_id
    && e.provider == provider
    && e.provider_event_id == provider_event_id

abbrev pub is_transfer : String → String → Transfer → Bool
is_transfer institution_id transfer_id t = t.institution_id == institution_id && t.id == transfer_id

-- A text that may be left out.
abbrev pub optional : String → Option String
optional text = if text == "" then none else some text

insert_event : ProviderEvent → Tx (Unit {0})
insert_event event = do
  rows ← gets (λ s. s.provider_events)
  fail_if (not (eqb (count (λ e. e.id == event.id) rows) 0)) Error.database
  modify (λ s. record s { provider_events = insert event s.provider_events })

abbrev new_event : String → String → RecordTransferInput → String → ℕ → ProviderEvent
new_event id request_fingerprint input transfer_id now = record {
  id = id;
  institution_id = input.institution_id;
  provider = input.provider;
  provider_event_id = input.provider_event_id;
  provider_reference = input.provider_reference;
  transfer_id = optional transfer_id;
  request_fingerprint = request_fingerprint;
  created_at = now;
}

-- `reserve`: INSERT … ON CONFLICT DO NOTHING; whether a row was inserted.
unfoldable pub reserve : RecordTransferInput → String → ℕ → Tx Bool
unfolding insert_event
reserve input transfer_id now = do
  id ← new_id
  sha256_hex ← gets (λ s. s.env.sha256_hex)
  seen ← gets (λ s.
      find (is_event input.institution_id input.provider input.provider_event_id) s.provider_events)
  let event = new_event id (transfer_request_fingerprint sha256_hex input) input transfer_id now
  if_found seen (λ _. pure false) (insert_event event >> pure true)

-- `payloadMatches`
unfoldable pub payload_matches : RecordTransferInput → String → Tx Bool
payload_matches input request_fingerprint = do
  event ←
      require
        (← gets (λ s.
          find (is_event input.institution_id input.provider input.provider_event_id)
            s.provider_events))
        Error.not_found
  pure (event.request_fingerprint == "" || event.request_fingerprint == request_fingerprint)

abbrev linked : Option ProviderEvent → Option String
linked none = none
linked (some e) = e.transfer_id

-- `getTransfer`: `none` is ErrNotFound.
unfoldable pub get_transfer_of_event : String → String → String → Tx (Option Transfer)
get_transfer_of_event institution_id provider provider_event_id = do
  event ← gets (λ s. find (is_event institution_id provider provider_event_id) s.provider_events)
  if_found (linked event)
      (λ transfer_id. gets (λ s. find (is_transfer institution_id transfer_id) s.transfers))
      (pure none)

abbrev is_free_for : String → Option String → Bool
is_free_for transfer_id none = true
is_free_for transfer_id (some t) = t == transfer_id

-- `linkTransfer`
unfoldable pub link_transfer : String → String → String → String → Tx (Unit {0})
link_transfer transfer_id institution_id provider provider_event_id = do
  let p = λ (e : ProviderEvent).
      is_event institution_id provider provider_event_id e && is_free_for transfer_id e.transfer_id
  rows ← gets (λ s. s.provider_events)
  fail_if (not (eqb (count p rows) 1)) Error.conflict
  modify (λ s. record s {
    provider_events = update p (λ e. record e { transfer_id = some transfer_id }) s.provider_events;
  })
