-- ===== src/Controls/Liens.antt =====
-- A lien takes its amount from what is available, and its release gives it back.
use lenz.Prelude.{
  ◌≡◌, refl, sym, subst, ℕ, String, Bool, true, false, none, some, List, map, ◌&&◌, ◌||◌, ◌==◌,
  eq_refl, Bool-cases, inl, inr, arith,
}
use lenz.Prelude.Int.{ℤ, int_laws}
use lenz.Prelude.Table.{
  find, update, insert, count, step, All-map, count-none, find-insert, column-update_two,
}
use lenz.Model.{is_active_hold, AccountBalance, AccountHold, AccountLienInput, ReleaseLienInput}
use lenz.Tx.{Store, new_id, ◌>>=◌}
use lenz.Tx.Yields.{Ends, Ends-map, Yields-bind}
use lenz.Audit.{insert_audit_event}
use lenz.Accounts.{is_balance, lock_account_balance, update_balance}
use lenz.Holds.{insert_hold, update_hold, is_rival, add_available, take_available}
use lenz.Controls.{
  is_lien, is_active_lien, is_lien_row, get_active_lien_by_reference,
  ensure_no_other_active_lien_by_reference, new_lien_checks, write_lien, place_lien, get_lien,
  write_lien_release, release_lien,
}

abbrev pub availables : Store → List ℤ
availables s = map (λ b. b.available_minor) s.balances

-- What a new lien writes: the lien itself, and the amount off the available balance.
abbrev pub IsPlaced : AccountLienInput → Store → AccountHold → Store → Type 0
IsPlaced input s hold t =
    (t.holds ≡ insert hold s.holds)
    × (t.balances
        ≡ update (is_balance input.institution_id input.account_id)
            (take_available input.amount_minor s.env.now) s.balances)
    × (count (is_rival hold) s.holds ≡ 0)
    × (hold.institution_id ≡ input.institution_id)
    × (hold.account_id ≡ input.account_id)
    × (is_lien hold.transfer_id ≡ true)
    × (is_active_hold hold.status ≡ true)
    × (hold.amount_minor ≡ input.amount_minor)

place_lien-Ends :
    (input : AccountLienInput) (s : Store)
    → find (is_active_lien true input.institution_id input.account_id input.reference) s.holds
      ≡ none
    → Ends (IsPlaced input s) (place_lien input s)
unfolding place_lien lock_account_balance get_active_lien_by_reference new_lien_checks
    ensure_no_other_active_lien_by_reference write_lien insert_hold update_balance
    insert_audit_event new_id ◌>>=◌
place_lien-Ends input s none_yet = ground (arith, none_yet)

release_lien-Ends :
    (input : ReleaseLienInput) (hold : AccountHold) (s : Store)
    → find
        (λ h.
          is_lien_row input.institution_id input.account_id input.lien_id h
          && is_lien h.transfer_id)
        s.holds
      ≡ some hold
    → is_active_hold hold.status ≡ true
    → Ends
        (λ _ t.
          t.balances
          ≡ update
              (is_balance input.institution_id input.account_id)
              (add_available hold.amount_minor s.env.now)
              s.balances)
        (release_lien input s)
unfolding release_lien write_lien_release get_lien update_hold update_balance insert_audit_event
    new_id ◌>>=◌
release_lien-Ends input hold s found active = ground (arith, found, active)

-- The release of the lien `hold`.
abbrev pub release_of : AccountLienInput → String → String → AccountHold → ReleaseLienInput
release_of input reference reason hold = record {
  institution_id = input.institution_id;
  account_id = input.account_id;
  lien_id = hold.id;
  reference = reference;
  reason = reason;
}

other_hold : (r i a c l : Bool) → (c || r) ≡ false → (i && a && c && l) ≡ false
other_hold r i a c l h = ground arith

own_row : (i a c l : Bool) → i ≡ true → a ≡ true → c ≡ true → l ≡ true → (i && a && c && l) ≡ true
own_row i a c l e f g h = ground arith

module _ (input : AccountLienInput) (reference reason : String) (s : Store) where
  abbrev wanted : AccountHold → AccountHold → Bool
  wanted hold h =
      is_lien_row input.institution_id input.account_id hold.id h && is_lien h.transfer_id

  placed-found :
      (hold : AccountHold) (t : Store)
      → IsPlaced input s hold t
      → find (wanted hold) t.holds ≡ some hold
  placed-found hold t placed = rw placed.0 (
      find-insert (wanted hold) hold s.holds
        (All-map _ _
          (λ h other.
            other_hold _ (h.institution_id == input.institution_id)
              (h.account_id == input.account_id) (h.id == hold.id) (is_lien h.transfer_id) other)
          s.holds (count-none (is_rival hold) s.holds placed.2))
        (own_row (hold.institution_id == input.institution_id) (hold.account_id == input.account_id)
          (hold.id == hold.id) (is_lien hold.transfer_id)
          (rw placed.3 (eq_refl input.institution_id)) (rw placed.4 (eq_refl input.account_id))
          (eq_refl hold.id) placed.5))

  -- Taking and giving back leaves what was available.
  given_back :
      (amount : ℤ) (now later : ℕ) (b : AccountBalance)
      → (step (is_balance input.institution_id input.account_id) (add_available amount later) (
          step
            (is_balance input.institution_id input.account_id)
            (take_available amount now)
            b)).available_minor
        ≡ b.available_minor
  given_back amount now later b =
      elim (Bool-cases (is_balance input.institution_id input.account_id b)) [
        | inl same ↦ rw (same, same) (omega int_laws)
        | inr other ↦ rw (other, other) refl
      ]

  -- A new lien and then its release, if both return, leave what is available on every account as it
  -- was before.
  pub place_lien-undone :
      find (is_active_lien true input.institution_id input.account_id input.reference) s.holds
        ≡ none
      → Ends
          (λ _ t. availables t ≡ availables s)
          ((place_lien input >>= λ hold. release_lien (release_of input reference reason hold)) s)
  place_lien-undone none_yet =
      (Yields-bind {P = λ t. t ≡ s} (IsPlaced input s) (place_lien input)
          (λ hold. release_lien (release_of input reference reason hold))
          (record {
            at = λ t e.
                subst (λ u. Ends (IsPlaced input s) (place_lien input u)) (sym e)
                  (place_lien-Ends input s none_yet);
          })
          (λ hold. record {
            at = λ t placed.
                Ends-map (release_lien (release_of input reference reason hold) t)
                  (release_lien-Ends (release_of input reference reason hold) hold t
                    (placed-found hold t placed) placed.6)
                  (λ _ u e.
                    rw (e, placed.1, placed.7)
                      (column-update_two (λ b. b.available_minor) _ _ _ _
                        (given_back input.amount_minor s.env.now t.env.now) s.balances));
          })).at
        s refl
