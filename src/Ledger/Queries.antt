-- ===== src/Ledger/Queries.antt =====
-- Reading `CreditLedger`: integrity, heads, proofs, balances and history
-- (legacy/worker/src/daemon/credit_ledger.py).
pub mod Integrity
pub mod Tamper
pub mod Balance
use distrib_ai.Base.{
  ℕ, zero, suc, ◌+◌, ◌-◌, Bool, true, false, ◌&&◌, ◌||◌, not, List, [], ◌∷◌, ◌++◌, Option, none,
  some, if◌then◌else◌, length, ltb, leb, map, get_last?, get_elem?, take, ◌==◌, Outcome, returned,
  attribute_error, decode_error,
}
use distrib_ai.Base.Int.{ℤ, pos, ◌+ℤ◌}
use distrib_ai.Ledger.Types.{
  Bytes, same_bytes, non_empty, CreditEntry, Payload, credit, Members, Loaded, undecodable,
  malformed, other, object, Platform, LedgerRecord, SignedHead, ConsistencyProof, CreditLedger,
}
use distrib_ai.Ledger.Merkle
use distrib_ai.Ledger.Chain.{hashes, compute_record_hash, verify_signature}

-- `self.get_signed_head(batch_index)`: the last head for -1, here `none`, else the first of the batch.
pub find_head : ℕ → List SignedHead → Option SignedHead
find_head i [] = none
find_head i (h ∷ hs) = let rest = find_head i hs in if h.batch_index == i then some h else rest

unfoldable pub get_signed_head : Option ℕ → CreditLedger → Option SignedHead
unfolding find_head
get_signed_head none l = get_last? l.signed_heads
get_signed_head (some i) l = find_head i l.signed_heads

unfoldable pub get_record : ℕ → CreditLedger → Option LedgerRecord
get_record index l = get_elem? l.records index

abbrev pub size : CreditLedger → ℕ
size l = length l.records

-- An entry of `get_credit_history`.
pub record HistoryEntry : Type 0 where
  pub index : ℕ
  pub timestamp : ℕ
  pub job_id : Option ℕ
  pub amount : Option ℤ
  pub proof : List Bytes
  pub batch_index : ℕ

module _ (p : Platform) where
  -- The loop of `verify_chain_integrity`, with the hash of the record before, if there is one.
  unfoldable pub check_links : Option Bytes → List LedgerRecord → Bool
  check_links before [] = true
  check_links before (r ∷ rs) =
      elim before as (λ _. Bool) [ none ↦ true | some h ↦ same_bytes r.prev_hash h ]
      && (same_bytes r.hash (compute_record_hash p r.index r.timestamp r.data_bytes r.prev_hash)
          && check_links (some r.hash) rs)

  -- The test of the signed root behind the loop.
  unfoldable pub check_root : CreditLedger → Bool
  check_root l =
      if non_empty l.root_hash && non_empty l.signature
      then same_bytes (Merkle.root_hash p (hashes l.records)) l.root_hash
        && verify_signature p l.signing_key l.root_hash l.signature
      else true

  unfoldable pub verify_chain_integrity : CreditLedger → Bool
  verify_chain_integrity l = elim l.records [
    | [] ↦ true
    | r ∷ rs ↦ check_links none l.records && check_root l
  ]

  unfoldable pub get_proof : ℕ → CreditLedger → List Bytes
  get_proof index l =
      if leb (length l.records) index then [] else Merkle.get_proof p (hashes l.records) index

  unfoldable pub verify_record : ℕ → Bytes → CreditLedger → Bool
  verify_record index content l =
      if leb (length l.records) index
      then false
      else Merkle.verify_proof p l.root_hash content (get_proof index l) index

  unfoldable pub verify_credit : ℕ → CreditEntry → CreditLedger → Bool
  verify_credit index entry l = verify_record index (p.dumps (credit entry)) l

  unfoldable pub get_consistency_proof : ℕ → CreditLedger → Option ConsistencyProof
  get_consistency_proof old_size l =
      if ltb (length l.records) old_size
      then none
      else if old_size == length l.records
      then some (record {
        old_root = l.root_hash;
        new_root = l.root_hash;
        proof = [];
        old_size = old_size;
        new_size = length l.records;
      })
      else some (record {
        old_root = Merkle.root_hash p (hashes (take old_size l.records));
        new_root = Merkle.root_hash p (hashes l.records);
        proof = if ltb 0 old_size then get_proof (old_size - 1) l else [];
        old_size = old_size;
        new_size = length l.records;
      })

  unfoldable pub verify_consistency_proof : ConsistencyProof → CreditLedger → Bool
  verify_consistency_proof c l = same_bytes (Merkle.root_hash p (hashes l.records)) c.new_root

  -- `data.get("contributor_id") == contributor_id`
  abbrev pub is_by : ℕ → Members → Bool
  is_by contributor m = elim m.contributor_id [ none ↦ false | some c ↦ c == contributor ]

  -- `data.get("amount", 0.0)`
  abbrev pub amount_of : Members → ℤ
  amount_of m = elim m.amount [ none ↦ pos 0 | some a ↦ a ]

  -- The loop of `get_balance`: it skips what is no JSON, and a value that is no object has no `get`.
  unfoldable pub balance_from : ℤ → ℕ → List LedgerRecord → Outcome ℤ
  balance_from balance contributor [] = returned balance
  balance_from balance contributor (r ∷ rs) = elim (p.loads r.data_bytes) [
    | undecodable ↦ balance_from balance contributor rs
    | malformed ↦ balance_from balance contributor rs
    | other ↦ attribute_error
    | object m ↦
        balance_from (if is_by contributor m then balance +ℤ amount_of m else balance) contributor
          rs
  ]

  unfoldable pub get_balance : ℕ → CreditLedger → Outcome ℤ
  get_balance contributor l = balance_from (pos 0) contributor l.records

  -- The loop of `get_total_credits`: it does not catch `UnicodeDecodeError`.
  pub total_from : ℤ → ℕ → List LedgerRecord → Outcome ℤ
  total_from total contributor [] = returned total
  total_from total contributor (r ∷ rs) = elim (p.loads r.data_bytes) [
    | undecodable ↦ decode_error
    | malformed ↦ total_from total contributor rs
    | other ↦ attribute_error
    | object m ↦
        total_from (if is_by contributor m then total +ℤ amount_of m else total) contributor rs
  ]

  unfoldable pub get_total_credits : ℕ → CreditLedger → Outcome ℤ
  get_total_credits contributor l = total_from (pos 0) contributor l.records

  pub history_from : ℕ → CreditLedger → List LedgerRecord → Outcome (List HistoryEntry)
  history_from contributor l [] = returned []
  history_from contributor l (r ∷ rs) =
      let rest = history_from contributor l rs in
      elim (p.loads r.data_bytes) [
        | undecodable ↦ decode_error
        | malformed ↦ rest
        | other ↦ attribute_error
        | object m ↦
            if is_by contributor m
            then elim rest [
              | returned es ↦ returned (
                  record {
                    index = r.index;
                    timestamp = r.timestamp;
                    job_id = m.job_id;
                    amount = m.amount;
                    proof = get_proof r.index l;
                    batch_index = r.batch_index;
                  }
                  ∷ es)
              | raised ↦ raised
            ]
            else rest
      ]

  unfoldable pub get_credit_history : ℕ → CreditLedger → Outcome (List HistoryEntry)
  get_credit_history contributor l = history_from contributor l l.records
