-- ===== src/Ledger/Examples.antt =====
-- The theorems of the credit ledger at concrete inputs, and tests of its operations
-- (legacy/worker/src/daemon/credit_ledger.py). Digests are the bytes themselves here.
use distrib_ai.Base.{
  ℕ, zero, suc, ◌≡◌, ◌↔◌, ◌⊎◌, refl, true, none, some, List, [], ◌∷◌, ◌++◌, arith, if◌then◌else◌,
  ◌==◌, returned,
}
use distrib_ai.Base.Int.{ℤ, pos, negsuc, ◌+ℤ◌}
use distrib_ai.Ledger.Types.{
  Bytes, to_bytes, Payload, credit, Loaded, malformed, object, Platform, LedgerRecord, CreditLedger,
}
use distrib_ai.Ledger.Merkle.{MerkleNode, leaf, build_tree}
use distrib_ai.Ledger.Merkle.Build.{build_tree_total}
use distrib_ai.Ledger.Chain.{
  new_ledger, append_batch, add_credit, compute_record_hash, record_bytes,
}
use distrib_ai.Ledger.Chain.Heads.{IsAttested, new_ledger-IsAttested}
use distrib_ai.Ledger.Chain.Invariant.{IsValid, new_ledger-IsValid}
use distrib_ai.Ledger.Queries.{verify_chain_integrity, check_links, get_balance, balance_from}
use distrib_ai.Ledger.Queries.Integrity.{
  root_now, verify_chain_integrity_iff, append_batch-verify_chain_integrity,
}
use distrib_ai.Ledger.Queries.Tamper.{
  IsPackable, IsSameChain, Collision, PacksDouble, tamper_evident,
}
use distrib_ai.Ledger.Queries.Balance.{LoadsCredits, add_credit-get_balance}
use distrib_ai.Ledger.Writes
use distrib_ai.Ledger.Writes.{Write, write_all, write_all-IsValid}

dump_amount : ℤ → Bytes
dump_amount (pos n) = 0 ∷ n ∷ []
dump_amount (negsuc n) = 1 ∷ n ∷ []

dump : Payload → Bytes
unfolding dump_amount
dump (credit e) = e.contributor_id ∷ e.job_id ∷ dump_amount e.amount
dump _ = []

members : ℕ → ℕ → ℤ → Loaded
members c j a = object (record { contributor_id = some c; job_id = some j; amount = some a })

load : Bytes → Loaded
unfolding members
load (c ∷ (j ∷ (zero ∷ (n ∷ [])))) = members c j (pos n)
load (c ∷ (j ∷ (suc z ∷ (n ∷ [])))) = members c j (negsuc n)
load _ = malformed

abbrev platform : Platform
unfolding load dump
platform = record {
  sha256 = λ x. x;
  mac = λ key root. key ++ root;
  pack_double = λ t. t ∷ 0 ∷ 0 ∷ 0 ∷ 0 ∷ 0 ∷ 0 ∷ 0 ∷ [];
  dumps = dump;
  loads = load;
}

abbrev empty_ledger : CreditLedger
empty_ledger = new_ledger (1 ∷ 2 ∷ []) 2

abbrev some_writes : List Write
some_writes =
    Writes.append (5 ∷ []) 10 11 ∷ Writes.append (6 ∷ []) 12 13 ∷ Writes.append (7 ∷ []) 14 15 ∷ []

-- Two sealed records and a pending one.
abbrev written : CreditLedger
written = write_all platform some_writes empty_ledger

written-kept : IsValid platform written × IsAttested platform written
written-kept =
    write_all-IsValid platform some_writes empty_ledger (new_ledger-IsValid platform (1 ∷ 2 ∷ []) 2)
      (new_ledger-IsAttested platform (1 ∷ 2 ∷ []) 2)

written-IsValid : IsValid platform written
written-IsValid = written-kept.0

write_all-IsValid_example :
    IsValid platform (write_all platform (Writes.force_finalize 16 ∷ []) written)
    × IsAttested platform (write_all platform (Writes.force_finalize 16 ∷ []) written)
write_all-IsValid_example =
    write_all-IsValid platform (Writes.force_finalize 16 ∷ []) written written-IsValid
      written-kept.1

verify_chain_integrity_iff_example : (verify_chain_integrity platform written ≡ true) ↔ (
    (written.root_hash ≡ [])
    ⊎ (written.signature ≡ [])
    ⊎ (root_now platform written ≡ written.root_hash))
verify_chain_integrity_iff_example = verify_chain_integrity_iff platform written written-IsValid

append_batch-verify_chain_integrity_example :
    verify_chain_integrity platform
      (append_batch platform ((8 ∷ []) ∷ (9 ∷ []) ∷ []) 20 21 written).1
    ≡ true
append_batch-verify_chain_integrity_example =
    append_batch-verify_chain_integrity platform ((8 ∷ []) ∷ (9 ∷ []) ∷ []) 20 21 written
      written-IsValid

platform-LoadsCredits : LoadsCredits platform
unfolding load dump dump_amount members
platform-LoadsCredits e = dumped e.amount
  where
    dumped :
        (a : ℤ)
        → load (e.contributor_id ∷ e.job_id ∷ dump_amount a) ≡ members e.contributor_id e.job_id a
    dumped (pos n) = refl
    dumped (negsuc n) = refl

nothing_yet : get_balance platform 3 empty_ledger ≡ returned (pos 0)
unfolding get_balance balance_from
nothing_yet = refl

add_credit-get_balance_example :
    get_balance platform 3 (add_credit platform 3 4 (pos 25) [] 29 30 31 empty_ledger).1
    ≡ returned (if 3 == 3 then pos 0 +ℤ pos 25 else pos 0)
add_credit-get_balance_example =
    add_credit-get_balance platform 3 4 (pos 25) [] 29 30 31 3 (pos 0) empty_ledger
      platform-LoadsCredits refl nothing_yet

build_tree_total_example :
    (top : MerkleNode) × (build_tree platform (leaf (1 ∷ []) ∷ leaf (2 ∷ []) ∷ leaf (3 ∷ []) ∷ [])
      ≡ some top)
build_tree_total_example =
    build_tree_total platform (leaf (1 ∷ [])) (leaf (2 ∷ []) ∷ leaf (3 ∷ []) ∷ [])

abbrev first : LedgerRecord
first = record {
  index = 0;
  timestamp = 10;
  data_bytes = 5 ∷ [];
  prev_hash = [];
  hash = compute_record_hash platform 0 10 (5 ∷ []) [];
  batch_index = 0;
}

abbrev second : LedgerRecord
second = record {
  index = 1;
  timestamp = 12;
  data_bytes = 6 ∷ [];
  prev_hash = first.hash;
  hash = compute_record_hash platform 1 12 (6 ∷ []) first.hash;
  batch_index = 0;
}

-- Like `first`, with another batch: the batch is not hashed.
abbrev other_batch : LedgerRecord
other_batch = record first { batch_index = 4 }

pack-PacksDouble : PacksDouble platform.pack_double
unfolding platform
pack-PacksDouble = record { width = λ t. refl; injective = λ t u ht hu e. cc }

linked : check_links platform none (first ∷ second ∷ []) ≡ true
unfolding check_links compute_record_hash record_bytes to_bytes platform
linked = refl

linked_other : check_links platform none (other_batch ∷ second ∷ []) ≡ true
unfolding check_links compute_record_hash record_bytes to_bytes platform
linked_other = refl

first-IsPackable : IsPackable first
first-IsPackable = record { index = omega arith; timestamp = omega arith; data_bytes = omega arith }

other_batch-IsPackable : IsPackable other_batch
other_batch-IsPackable = record {
  index = omega arith;
  timestamp = omega arith;
  data_bytes = omega arith;
}

second-IsPackable : IsPackable second
second-IsPackable = record {
  index = omega arith;
  timestamp = omega arith;
  data_bytes = omega arith;
}

tamper_evident_example :
    IsSameChain (first ∷ second ∷ []) (other_batch ∷ second ∷ []) ⊎ Collision platform.sha256
tamper_evident_example =
    tamper_evident platform none none first other_batch (second ∷ []) (second ∷ []) pack-PacksDouble
      (first-IsPackable, (second-IsPackable, tt)) (other_batch-IsPackable, (second-IsPackable, tt))
      refl linked linked_other refl
