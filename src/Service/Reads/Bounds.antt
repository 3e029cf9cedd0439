-- ===== src/Service/Reads/Bounds.antt =====
-- The length of a list that the service reads.
use lenz.Prelude.{
  ◌≡◌, refl, ap, ℕ, zero, suc, ◌≤◌, String, Bool, List, [], ◌∷◌, map, arith, if◌then◌else◌, ◌==◌,
}
use lenz.Prelude.Int.{ℤ, pos, pos_part}
use lenz.Prelude.Text.{trim_space}
use lenz.Prelude.Listing.{take, length, page}
use lenz.Model.{ListOptions, ListReconciliationItemsOptions}
use lenz.Tx.{Store, gets}
use lenz.Tx.Yields.{
  Ends, Ends-map, Yields, Yields-bind-fact, Yields-bind-fail_if, Yields-skip, Yields-pure,
}
use lenz.Prelude.{Option-cases, inl, inr}
use lenz.Prelude.Table.{find}
use lenz.Model.{Account}
use lenz.Accounts.{is_account}
use lenz.Accounts.Reads.{Row, scan_rows, list_transactions}
use lenz.Lists.{
  limited, check_cursor, normalize_list_transactions_options, normalize_list_transfers_options,
  normalize_list_audit_events_options, normalize_list_reconciliation_items_options,
}
use lenz.Lists.Queries as Queries
use lenz.Service.Reads.{get_transactions, list_transfers, list_reconciliation_items}

length-take : {A : Type 0} (n : ℕ) (xs : List A) → length (take n xs) ≤ n
unfolding length take
length-take zero xs = omega arith
length-take (suc n) [] = omega arith
length-take (suc n) (x ∷ xs) = omega (arith, length-take n xs)

limited-bound :
    (default : ℤ) (limit : ℤ) → pos_part default ≤ 200 → pos_part (limited default limit) ≤ 200
unfolding limited
limited-bound d limit h = ground (arith, h)

length-map : {A B : Type 0} (f : A → B) (xs : List A) → length (map f xs) ≡ length xs
unfolding length
length-map f [] = refl
length-map f (x ∷ xs) = ap suc (length-map f xs)

abbrev Fits : ℤ → Type 0
Fits limit = pos_part limit ≤ 200

-- A list of at most 200 rows.
abbrev pub IsShort : {A : Type 0} → List A → Store → Type 0
IsShort rows t = length rows ≤ 200

page-IsShort :
    {A : Type 0} (limit : ℤ) (xs : List A) (s : Store)
    → Fits limit
    → IsShort (take (pos_part limit) xs) s
page-IsShort limit xs s fits = omega (arith, length-take (pos_part limit) xs, fits)

module _ (is_uuid : String → Bool) where
  transfers_limit :
      (given : ListOptions)
      → Yields (λ _. Unit) (normalize_list_transfers_options is_uuid given) (λ o _. Fits o.limit)
  unfolding normalize_list_transfers_options
  transfers_limit given =
      Yields-skip (check_cursor is_uuid given.before_created_at (trim_space given.before_id)) _
        λ _. Yields-pure _ λ s h. limited-bound (pos 100) given.limit (omega arith)

  audit_events_limit :
      (given : ListOptions)
      → Yields (λ _. Unit) (normalize_list_audit_events_options is_uuid given) (λ o _. Fits o.limit)
  unfolding normalize_list_audit_events_options
  audit_events_limit given =
      Yields-skip (check_cursor is_uuid given.before_created_at (trim_space given.before_id)) _
        λ _. Yields-pure _ λ s h. limited-bound (pos 200) given.limit (omega arith)

  items_limit :
      (given : ListReconciliationItemsOptions)
      → Yields
          (λ _. Unit)
          (normalize_list_reconciliation_items_options is_uuid given)
          (λ o _. Fits o.limit)
  unfolding normalize_list_reconciliation_items_options
  items_limit given =
      Yields-skip
        (check_cursor is_uuid given.before_created_at (trim_space given.before_transfer_id)) _
        λ _. Yields-bind-fail_if _ _ _ λ _. Yields-bind-fail_if _ _ _ λ _.
          Yields-bind-fail_if _ _ _ λ _.
            Yields-bind-fail_if _ _ _
              λ _. Yields-pure _ λ s h. limited-bound (pos 100) given.limit (omega arith)

  transfers-IsShort :
      (i : String) (given : ListOptions)
      → Yields (λ _. Unit) (Queries.list_transfers is_uuid i given) IsShort
  unfolding Queries.list_transfers page gets
  transfers-IsShort i given =
      Yields-bind-fact (λ o. Fits o.limit) _ _ (transfers_limit given)
        λ o fits. record { at = λ s h. page-IsShort o.limit _ s fits }

  audit_events-IsShort :
      (i : String) (given : ListOptions)
      → Yields (λ _. Unit) (Queries.list_audit_events is_uuid i given) IsShort
  unfolding Queries.list_audit_events page gets
  audit_events-IsShort i given =
      Yields-bind-fact (λ o. Fits o.limit) _ _ (audit_events_limit given)
        λ o fits. record { at = λ s h. page-IsShort o.limit _ s fits }

items-IsShort :
    (i : String) (o : ListReconciliationItemsOptions)
    → Fits o.limit
    → Yields (λ _. Unit) (Queries.list_reconciliation_items i o) IsShort
unfolding Queries.list_reconciliation_items page gets
items-IsShort i o fits = Yields-skip _ _ λ now.
    Yields-bind-fact (λ rows. length rows ≤ 200) _ _
      (record { at = λ s h. page-IsShort o.limit _ s fits })
      λ rows short. Yields-pure _ λ s h. omega (arith, length-map _ rows, short)

scan-length :
    (i a : String) (accounts : List Account) (account : Account) (rows : List (Row i a))
    → Yields (λ _. Unit) (scan_rows i a accounts account rows) (λ ts _. length ts ≡ length rows)
unfolding scan_rows length
scan-length i a accounts account [] = Yields-pure [] λ s h. refl
scan-length i a accounts account (r ∷ rows) = Yields-skip _ _ λ signed.
    Yields-bind-fact (λ ts. length ts ≡ length rows) _ _ (scan-length i a accounts account rows)
      λ ts same. Yields-pure _ λ s h. ap suc same

scan-IsShort :
    (i a : String) (accounts : List Account) (account : Account) (rows : List (Row i a))
    → length rows ≤ 200
    → Yields (λ _. Unit) (scan_rows i a accounts account rows) IsShort
scan-IsShort i a accounts account rows short = record {
  at = λ s h.
      Ends-map {P = λ ts _. length ts ≡ length rows} {Q = IsShort}
        (scan_rows i a accounts account rows s) ((scan-length i a accounts account rows).at s h)
        (λ ts t same. omega (arith, same, short));
}

transactions-IsShort :
    (i a : String) (given : ListOptions) → Yields (λ _. Unit) (list_transactions i a given) IsShort
unfolding list_transactions normalize_list_transactions_options length
transactions-IsShort i a given = Yields-skip _ _ λ s.
    elim (Option-cases (find (is_account i a) s.accounts)) [
      | inl missing ↦ rw missing (Yields-pure [] λ t h. omega arith)
      | inr (account, found) ↦ rw found (
          scan-IsShort i a s.accounts account _ (
            page-IsShort (limited (pos 100) given.limit) _ s
              (limited-bound (pos 100) given.limit (omega arith))))
    ]

module _ (is_uuid : String → Bool) where
  list_transfers-IsShort :
      (i : String) (given : ListOptions)
      → Yields (λ _. Unit) (list_transfers is_uuid i given) IsShort
  unfolding list_transfers
  list_transfers-IsShort i given =
      Yields-skip _ _ λ i'. Yields-skip _ _ λ o. transfers-IsShort is_uuid i' o

  list_items-IsShort :
      (i : String) (given : ListReconciliationItemsOptions)
      → Yields (λ _. Unit) (list_reconciliation_items is_uuid i given) IsShort
  unfolding list_reconciliation_items
  list_items-IsShort i given = Yields-skip _ _ λ i'.
      Yields-bind-fact (λ o. Fits o.limit) _ _ (items_limit is_uuid given)
        λ o fits. items-IsShort i' o fits

  get_transactions-IsShort :
      (i a : String) (given : ListOptions)
      → Yields (λ _. Unit) (get_transactions is_uuid i a given) IsShort
  unfolding get_transactions
  get_transactions-IsShort i a given = Yields-skip _ _ λ i'. Yields-skip _ _ λ a'.
      Yields-skip _ _ λ _. Yields-skip _ _ λ account. transactions-IsShort i' a' (record given {
        before_id =
            if trim_space given.before_id == ""
            then given.before_id
            else trim_space given.before_id;
      })

-- However many rows a caller asks for, the lists of transfers, of audit events, of items to review
-- and of the transactions of an account, if they return, have at most 200 rows.
pub lists-IsShort :
    (is_uuid : String → Bool) (i a : String) (given : ListOptions)
    (items : ListReconciliationItemsOptions) (s : Store)
    → Ends IsShort (list_transfers is_uuid i given s)
      × Ends IsShort (Queries.list_audit_events is_uuid i given s)
      × Ends IsShort (list_reconciliation_items is_uuid i items s)
      × Ends IsShort (get_transactions is_uuid i a given s)
lists-IsShort is_uuid i a given items s = (
  (list_transfers-IsShort is_uuid i given).at s tt,
  (audit_events-IsShort is_uuid i given).at s tt,
  (list_items-IsShort is_uuid i items).at s tt,
  (get_transactions-IsShort is_uuid i a given).at s tt,
)
