-- ===== src/Review.antt =====
-- The review and the reversal of transactions: `TransactionService` of ledger/transactionService.ts, on
-- the rows of the transactions and of the ledger. A row is found by its id, the table's primary key.
-- Amounts are whole numbers of a smallest unit, in clear; the messages to people are left out.
pub mod Ledger
pub mod Flow
pub mod Rounds
pub mod Rows
pub mod Net
pub mod Twice
pub mod Approval
mod Tests
use orbi_insitutional_core_v.Prelude.{
  Bool, Option, none, some, List, [], ◌∷◌, ◌++◌, if◌then◌else◌, ℕ,
}
use orbi_insitutional_core_v.Prelude.Int.{ℤ}
use orbi_insitutional_core_v.Prelude.Text.{Text, text_eq}
use orbi_insitutional_core_v.Lifecycle.{Status}

pub data EntryType : Type 0 where
  debit credit : EntryType

-- A row of `financial_ledger`; the rest of it is text that nothing reads back.
pub record LedgerLeg : Type 0 where
  pub transaction_id : Text
  pub wallet_id : Option Text
  pub entry_type : EntryType
  pub amount : ℤ

pub data AuditStatus : Type 0 where
  audit_pending audit_passed audit_failed : AuditStatus

-- `metadata.transaction_lock`; a time is in milliseconds.
pub record TransactionLock : Type 0 where
  pub locked : Bool
  pub previous_status : Status
  pub locked_at : ℕ
  pub auto_reverse_at : ℕ
  pub audit_status : AuditStatus

pub record Tx : Type 0 where
  pub id : Text
  pub user_id : Text
  pub type : Text
  pub status : Status
  pub amount : ℤ
  pub created_at : ℕ
  pub transaction_lock : Option TransactionLock
  pub manual_review : Bool

-- A row of `transaction_events`.
pub record TxEvent : Type 0 where
  pub transaction_id : Text
  pub old_state : Option Status
  pub new_state : Status

pub record Book : Type 0 where
  pub transactions : List Tx
  pub ledger : List LedgerLeg
  pub events : List TxEvent

-- How a call ends.
pub data Ending : Type 0 where
  finished : Ending
  thrown : Text → Ending

unfoldable pub find_tx : Text → List Tx → Option Tx
unfolding text_eq
find_tx id [] = none
find_tx id (t ∷ ts) = if text_eq t.id id then some t else find_tx id ts

-- `.update({…}).eq('id', id)`
unfoldable pub update_tx : Text → (Tx → Tx) → List Tx → List Tx
unfolding text_eq
update_tx id f [] = []
update_tx id f (t ∷ ts) = (if text_eq t.id id then f t else t) ∷ update_tx id f ts

-- `.eq('transaction_id', id)`
unfoldable pub legs_of : Text → List LedgerLeg → List LedgerLeg
unfolding text_eq
legs_of id [] = []
legs_of id (l ∷ ls) =
    let rest = legs_of id ls in if text_eq l.transaction_id id then l ∷ rest else rest

unfoldable pub log_transaction_event : Text → Option Status → Status → Book → Book
log_transaction_event id old new b = record b {
  events = b.events ++ record { transaction_id = id; old_state = old; new_state = new } ∷ [];
}
