-- ===== src/Transfers/Rows.antt =====
-- What the statements on `transfers` write when they return.
use lenz.Prelude.{◌≡◌, String, arith}
use lenz.Prelude.Table.{update, insert, count}
use lenz.Model.{Transfer}
use lenz.Tx.{Store, ◌>>=◌}
use lenz.Tx.Yields.{Ends}
use lenz.ProviderEvents.{is_transfer}
use lenz.Transfers.{insert_transfer, update_transfer, is_rival}

pub insert_transfer-Ends :
    (transfer : Transfer) (s : Store)
    → Ends
        (λ _ t.
          (t ≡ record s { transfers = insert transfer s.transfers })
          × (count (is_rival transfer) s.transfers ≡ 0))
        (insert_transfer transfer s)
unfolding insert_transfer ◌>>=◌
insert_transfer-Ends transfer s = ground arith

pub update_transfer-Ends :
    (i t : String) (f : Transfer → Transfer) (s : Store)
    → Ends
        (λ _ u. u ≡ record s { transfers = update (is_transfer i t) f s.transfers })
        (update_transfer i t f s)
unfolding update_transfer ◌>>=◌
update_transfer-Ends i t f s = ground arith
