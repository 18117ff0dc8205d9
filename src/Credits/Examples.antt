-- ===== src/Credits/Examples.antt =====
-- The theorems on the SQL ledger and the transfers at concrete inputs, and tests
-- (legacy/services_python/db/_credits.py, legacy/services_python/credit_transfers.py).
use distrib_ai.Base.{
  ◌⊎◌, false, ℕ, zero, suc, ◌+◌, ◌==◌, ◌≡◌, ◌≢◌, refl, sym, ap, ◌∙◌, true, none, some, List, [],
  ◌∷◌, ◌++◌, if◌then◌else◌, arith, length, returned,
}
use distrib_ai.Base.Int.{ℤ, pos, negsuc, ◌+ℤ◌, ◌-ℤ◌, int_laws}
use distrib_ai.Ledger.Types.{
  Bytes, Platform, CreditLedger, Loaded, malformed, object, transaction, Payload as Written,
}
use distrib_ai.Ledger.Chain.{new_ledger, append_record}
use distrib_ai.Ledger.Queries.{get_balance, balance_from}
use distrib_ai.Credits.Store.{
  Row, Payload, move, balance, add_credits, transfer_credits_between_nodes, verify_credit_chain,
  get_node_credits,
}
use distrib_ai.Credits.Store.Balances.{
  Booking, add, transfer, book, book_all, Settles, IsCovered, transfer_credits-Settles,
  book_all-IsCovered,
}
use distrib_ai.Credits.Transfers.{
  CreditStore, Digests, Readings, create_transfer, validate_transfer, check_velocity_limit,
}
use distrib_ai.Credits.Transfers.Sync.{
  Service, Answer, success, no_fault, raised_in, mirror_transfer, transfer_sync, create_and_persist,
  persist, validate_transfer_atomic,
}
use distrib_ai.Credits.Transfers.Mirror.{
  CreditStoreLaws, LoadsTransactions, Agrees, InStep, IsBehind, append_record-balance,
  transfer_sync-InStep,
}
use distrib_ai.Credits.Transfers.Sql.{
  sql_store, read_balance, read_balance_sum, persist_row, sql_store-CreditStoreLaws,
}
use distrib_ai.Credits.Store.Chained.{book_all-verify_credit_chain}

abbrev digest : Payload → ℕ
digest p = p.prev + p.ts + 5

digest_nonzero : (p : Payload) → digest p ≢ 0
digest_nonzero p = omega arith

-- Node 1 earns 5 credits, gives 2 to node 2, and then asks for more than it has.
abbrev bookings : List Booking
bookings =
    add 1 (pos 5000000) 9 none 100
    ∷ transfer 1 2 (pos 2000000) 7 8 101
    ∷ transfer 1 2 (pos 4000000) 7 8 102
    ∷ []

abbrev earned : List Row
earned = book_all digest bookings []

three_rows : length earned ≡ 3
unfolding book_all book add_credits transfer_credits_between_nodes move ◌+ℤ◌ ◌-ℤ◌
three_rows = refl

balances : (balance 1 earned ≡ pos 3000000) × (balance 2 earned ≡ pos 2000000)
unfolding book_all book add_credits transfer_credits_between_nodes move ◌+ℤ◌ ◌-ℤ◌
balances = (refl, refl)

transfer_credits-Settles_example :
    Settles digest 1 2
      (pos 1000000)
      2
      earned
      (transfer_credits_between_nodes digest 1 2 (pos 1000000) 3 4 103 earned)
transfer_credits-Settles_example =
    transfer_credits-Settles digest 1 2 (pos 1000000) 3 4 103 2 earned

nobody_owes : IsCovered []
nobody_owes node = omega arith

book_all-IsCovered_example : IsCovered earned
book_all-IsCovered_example =
    book_all-IsCovered digest bookings [] (omega arith, (tt, (tt, tt))) nobody_owes

book_all-verify_credit_chain_example : (verify_credit_chain digest earned).ok ≡ true
book_all-verify_credit_chain_example = book_all-verify_credit_chain digest bookings digest_nonzero

dump_amount : ℤ → Bytes
dump_amount (pos n) = 0 ∷ n ∷ []
dump_amount (negsuc n) = 1 ∷ n ∷ []

dump : Written → Bytes
unfolding dump_amount
dump (transaction node type amount job time metadata) = node ∷ job ∷ dump_amount amount
dump _ = []

members : ℕ → ℕ → ℤ → Loaded
members c j a = object (record { contributor_id = some c; job_id = some j; amount = some a })

load : Bytes → Loaded
unfolding members
load (c ∷ (j ∷ (zero ∷ (n ∷ [])))) = members c j (pos n)
load (c ∷ (j ∷ (suc z ∷ (n ∷ [])))) = members c j (negsuc n)
load _ = malformed

abbrev platform : Platform
unfolding load dump
platform = record {
  sha256 = λ x. x;
  mac = λ key root. key ++ root;
  pack_double = λ t. t ∷ [];
  dumps = dump;
  loads = load;
}

loads_transactions : LoadsTransactions platform
unfolding load dump dump_amount members
loads_transactions node type (pos n) job time metadata = refl
loads_transactions node type (negsuc n) job time metadata = refl

abbrev digests : Digests
digests = record {
  transfer_id = λ from to t. from + to + t;
  transfer_hash = λ id from to amount t. id + t;
  metadata = λ x other. other ∷ [];
  team_pooling = 11;
}

abbrev readings : Readings
readings = record {
  checked = 200;
  checked_again = 201;
  named = 202;
  stamped = 203;
  counted = 204;
  written_out = 205;
  appended_out = 206;
  sealed_out = 207;
  written_in = 208;
  appended_in = 209;
  sealed_in = 210;
}

abbrev database : CreditStore (List Row)
database = sql_store digest 203

-- Node 1 has 5 credits in the database and in the signed ledger.
abbrev rows : List Row
rows = (add_credits digest 1 (pos 5000000) 9 none 100 []).1

abbrev signed_ledger : CreditLedger
signed_ledger =
    (append_record platform 1 9 (pos 5000000) [] 0 100 100 100 (new_ledger (1 ∷ []) 100)).1

abbrev service : Service (List Row)
service = record {
  manager = record { pending_transfers = []; transfer_history = []; node_transfer_counts = [] };
  store = some rows;
  credit_ledger = some signed_ledger;
}

swap : (a : ℤ) → pos 0 +ℤ a ≡ a +ℤ pos 0
swap a = omega int_laws

in_agreement : Agrees platform digests database rows signed_ledger
unfolding add_credits get_balance balance_from
in_agreement node nz =
    append_record-balance platform digests database 1 9 (pos 5000000) [] 0 100 100 100 node (pos 0)
      (new_ledger (1 ∷ []) 100) loads_transactions refl
    ∙ ap returned
        (swap (if 1 == node then pos 5000000 else pos 0) ∙ sym (read_balance_sum node rows nz))

abbrev after_transfer : Answer × Service (List Row)
after_transfer =
    transfer_sync platform digests database no_fault 1 2 (pos 2000000) 0 readings service

sent : after_transfer.0 ≡ success 205 (pos 2000000) 1 2 true
unfolding transfer_sync create_and_persist persist validate_transfer_atomic validate_transfer
    create_transfer check_velocity_limit read_balance persist_row get_node_credits mirror_transfer
    transfer_credits_between_nodes add_credits ◌+ℤ◌ ◌-ℤ◌
sent = refl

sql_store-CreditStoreLaws_example : CreditStoreLaws database
sql_store-CreditStoreLaws_example = sql_store-CreditStoreLaws digest 203

-- The credit of the mirror raises: the database has moved the amount, the ledger has the debit alone.
abbrev behind : Answer × Service (List Row)
behind =
    transfer_sync platform digests database (raised_in false) 1 2 (pos 2000000) 0 readings service

not_mirrored : behind.0 ≡ success 205 (pos 2000000) 1 2 false
unfolding transfer_sync create_and_persist persist validate_transfer_atomic validate_transfer
    create_transfer check_velocity_limit read_balance persist_row get_node_credits mirror_transfer
    transfer_credits_between_nodes add_credits ◌+ℤ◌ ◌-ℤ◌
not_mirrored = refl

transfer_sync-InStep_example :
    InStep platform digests database behind.1
    ⊎ IsBehind platform digests database 1 2 (pos 2000000) rows (raised_in false) behind
transfer_sync-InStep_example =
    transfer_sync-InStep platform digests database (raised_in false) 1 2 (pos 2000000) 0 readings
      service loads_transactions (sql_store-CreditStoreLaws digest 203)
      (record { s = rows; l = signed_ledger; stored = refl; signed = refl; agree = in_agreement })
