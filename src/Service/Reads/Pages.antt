-- ===== src/Service/Reads/Pages.antt =====
-- To read the list of transfers page by page is to read every transfer once.
use lenz.Prelude.{
  ◌≡◌, refl, sym, ◌∙◌, ap, subst, ℕ, suc, ◌≤◌, ◌-◌, String, Bool, true, false, Option, none, some,
  List, [], ◌==◌, arith,
}
use lenz.Prelude.Int.{ℤ, pos, pos_part}
use lenz.Prelude.Text.{trim_space}
use lenz.Prelude.Table.{All, All-map, All-select}
use lenz.Prelude.Listing.{take, length, page}
use lenz.Prelude.Listing.Ordered.{order_by-All}
use lenz.Prelude.Listing.Pages.{read_pages, read_pages-whole, All-end}
use lenz.Prelude.Listing.Cursor.{IsKeyed, listed, page_first, page_after}
use lenz.Model.{Transfer, ListOptions}
use lenz.Tx.{Store, Result, Tx, ok, err, gets, ◌>>=◌}
use lenz.ProviderEvents.{optional}
use lenz.Lists.{limited, query_time, check_cursor, normalize_list_transfers_options}
use lenz.Lists.Queries as Queries
use lenz.Service.{require_institution_id}
use lenz.Service.Reads.{list_transfers}

-- A row that can be a cursor: its time is not Go's zero time, and its identifier is a UUID.
abbrev pub IsListable : (String → Bool) → Transfer → Type 0
IsListable is_uuid t =
    ((t.id == "") ≡ false)
    × (is_uuid t.id ≡ true)
    × (trim_space t.id ≡ t.id)
    × (query_time (some t.created_at) ≡ some t.created_at)

limited_positive : (limit : ℤ) → (k : ℕ) × (pos_part (limited (pos 100) limit) ≡ suc k)
unfolding limited
limited_positive limit = (pos_part (limited (pos 100) limit) - 1, ground arith)

limited-limited :
    (limit : ℤ) → limited (pos 100) (limited (pos 100) limit) ≡ limited (pos 100) limit
unfolding limited
limited-limited limit = ground arith

require_institution_id-ok :
    (institution_id : String) (s : Store)
    → (trim_space institution_id == "") ≡ false
    → require_institution_id institution_id s ≡ ok (trim_space institution_id, s)
unfolding require_institution_id ◌>>=◌
require_institution_id-ok institution_id s named = rw named refl

after_ok :
    {A B : Type 0} (m : Tx A) (f : A → Tx B) (s t : Store) (a : A)
    → m s ≡ ok (a, t)
    → (m >>= f) s ≡ f a t
unfolding ◌>>=◌
after_ok m f s t a e = rw (◌>>=◌, e) refl

module _ (is_uuid : String → Bool) where
  -- The query of the page that normalised options ask for.
  query_page :
      (institution_id : String) (given options : ListOptions) (s : Store)
      → normalize_list_transfers_options is_uuid given s ≡ ok (options, s)
      → Queries.list_transfers is_uuid institution_id given s
        ≡ ok (
          page
              (λ t. t.created_at)
              (λ t. t.id)
              (λ t. t.institution_id == institution_id)
              (query_time options.before_created_at)
              (optional options.before_id)
              (pos_part options.limit)
              s.transfers,
          s,
        )
  unfolding Queries.list_transfers normalize_list_transfers_options gets
  query_page institution_id given options s normal =
      after_ok (normalize_list_transfers_options is_uuid given) _ s s options normal

  service_query :
      (institution_id : String) (given options : ListOptions) (s : Store)
      → (trim_space institution_id == "") ≡ false
      → normalize_list_transfers_options is_uuid given s ≡ ok (options, s)
      → list_transfers is_uuid institution_id given s
        ≡ Queries.list_transfers is_uuid (trim_space institution_id) options s
  unfolding list_transfers require_institution_id normalize_list_transfers_options
  service_query institution_id given options s named normal =
      after_ok (require_institution_id institution_id) _ s s _
        (require_institution_id-ok institution_id s named)
      ∙ after_ok (normalize_list_transfers_options is_uuid given) _ s s options normal

  normal_first :
      (limit : ℤ) (s : Store)
      → normalize_list_transfers_options is_uuid
          (record { limit = limit; before_created_at = none; before_id = "" })
          s
        ≡ ok (
          record { limit = limited (pos 100) limit; before_created_at = none; before_id = "" },
          s,
        )
  unfolding normalize_list_transfers_options check_cursor ◌>>=◌ trim_space
  normal_first limit s = refl

  normal_next :
      (limit : ℤ) (t : Transfer) (s : Store)
      → IsListable is_uuid t
      → normalize_list_transfers_options is_uuid
          (record { limit = limit; before_created_at = some t.created_at; before_id = t.id })
          s
        ≡ ok (
          record {
            limit = limited (pos 100) limit;
            before_created_at = some t.created_at;
            before_id = t.id;
          },
          s,
        )
  unfolding normalize_list_transfers_options check_cursor ◌>>=◌
  normal_next limit t s h = rw (h.2, h.0, h.1) refl

module _ (is_uuid : String → Bool) (institution_id : String) (limit : ℤ) (s : Store) where
  -- The request of a page, after a row or at the start.
  abbrev pub request_after : Option Transfer → ListOptions
  request_after none = record { limit = limit; before_created_at = none; before_id = "" }
  request_after (some t) = record {
    limit = limit;
    before_created_at = some t.created_at;
    before_id = t.id;
  }

  abbrev rows_of : Result (List Transfer × Store) → List Transfer
  rows_of (ok (rows, t)) = rows
  rows_of (err e) = []

  abbrev pub page_of : Option Transfer → List Transfer
  page_of cursor = rows_of (list_transfers is_uuid institution_id (request_after cursor) s)

  abbrev is_of : Transfer → Bool
  is_of t = t.institution_id == trim_space institution_id

  abbrev page_at : Option ℕ → Option String → List Transfer
  page_at before before_id =
      page (λ t. t.created_at) (λ t. t.id) is_of before before_id
        (pos_part (limited (pos 100) limit)) s.transfers

  -- All transfers of the institution, the newest first.
  abbrev pub all_transfers : List Transfer
  all_transfers = listed (λ t. t.created_at) (λ t. t.id) is_of s.transfers

  first_page : (trim_space institution_id == "") ≡ false → page_of none ≡ page_at none none
  unfolding query_time
  first_page named =
      let given : ListOptions = record {
        limit = limited (pos 100) limit;
        before_created_at = none;
        before_id = "";
      } in
      ap rows_of (
        service_query is_uuid institution_id (request_after none) given s named
          (normal_first is_uuid limit s)
        ∙ query_page is_uuid (trim_space institution_id) given _ s
            (normal_first is_uuid (limited (pos 100) limit) s))
      ∙ rw (limited-limited limit) refl

  next_page :
      (trim_space institution_id == "") ≡ false
      → (t : Transfer) → IsListable is_uuid t
      → page_of (some t) ≡ page_at (some t.created_at) (some t.id)
  next_page named t h =
      let given : ListOptions = record {
        limit = limited (pos 100) limit;
        before_created_at = some t.created_at;
        before_id = t.id;
      } in
      ap rows_of (
        service_query is_uuid institution_id (request_after (some t)) given s named
          (normal_next is_uuid limit t s h)
        ∙ query_page is_uuid (trim_space institution_id) given _ s
            (normal_next is_uuid (limited (pos 100) limit) t s h))
      ∙ rw (limited-limited limit, h.0, h.3) refl

  all_transfers-IsListable :
      All (IsListable is_uuid) s.transfers → All (IsListable is_uuid) all_transfers
  all_transfers-IsListable h =
      order_by-All _ _ _ (All-map _ _ (λ t both. both.0) _ (All-select _ is_of s.transfers h))

  -- Whatever limit its requests state, a reader that asks for the page after the last row that it
  -- has, until a page is empty, gets all transfers of the institution, the newest first, each once,
  -- and needs no more pages than there are transfers; provided that no two transfers have one
  -- identifier, each identifier is a UUID without spaces around it, and no time is Go's zero time.
  pub read_pages-list_transfers :
      (trim_space institution_id == "") ≡ false
      → All (IsListable is_uuid) s.transfers
      → IsKeyed (λ t. t.created_at) (λ t. t.id) s.transfers
      → (n : ℕ) → length all_transfers ≤ n
      → read_pages page_of n none ≡ all_transfers
  read_pages-list_transfers named listable keyed n enough =
      let positive = limited_positive limit in
      read_pages-whole page_of positive.0 all_transfers
        (λ front x rest whole.
          next_page named x (
            All-end (IsListable is_uuid) front x rest
              (subst (All (IsListable is_uuid)) (sym whole) (all_transfers-IsListable listable)))
          ∙ page_after (λ t. t.created_at) (λ t. t.id) is_of _ s.transfers front x rest keyed whole
          ∙ ap (λ l. take l rest) positive.1)
        (first_page named
          ∙ page_first (λ t. t.created_at) (λ t. t.id) is_of _ s.transfers
          ∙ ap (λ l. take l all_transfers) positive.1)
        n enough
