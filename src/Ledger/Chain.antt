-- ===== src/Ledger/Chain.antt =====
-- Writing to `CreditLedger`: its constructor, `_compute_record_hash`, `append`, `_finalize_batch`,
-- `force_finalize`, `append_batch`, `add_credit`, `credit`, `append_record` and the signing of heads
-- (legacy/worker/src/daemon/credit_ledger.py). A method returns its result and the new state; a lock
-- is held throughout `append` and `force_finalize`, so each is one step.
pub mod Heads
pub mod Invariant
use distrib_ai.Base.{
  ℕ, zero, suc, ◌+◌, Bool, true, false, List, [], ◌∷◌, ◌++◌, Option, none, some, if◌then◌else◌,
  length, leb, map, get_last?, Outcome, returned, value_error,
}
use distrib_ai.Base.Int.{ℤ, pos, ltb_ℤ}
use distrib_ai.Ledger.Types.{
  Bytes, same_bytes, CreditEntry, Payload, credit, transaction, Platform, to_bytes, LedgerRecord,
  SignedHead, CreditLedger,
}
use distrib_ai.Ledger.Merkle

-- `CreditLedger(signing_key, batch_size)`: without a key it takes the environment's if that is not
-- empty, else the constant's if the module is there, else a new token.
abbrev pub choose_key : Option Bytes → Bytes → Option Bytes → Bytes → Bytes
choose_key (some key) env constant token = key
choose_key none (b ∷ env) constant token = b ∷ env
choose_key none [] (some key) token = key
choose_key none [] none token = token

abbrev pub new_ledger : Bytes → ℕ → CreditLedger
new_ledger key batch_size = record {
  records = [];
  root_hash = [];
  signature = [];
  signed_heads = [];
  batch_size = batch_size;
  current_batch = [];
  batch_index = 0;
  signing_key = key;
}

abbrev pub hashes : List LedgerRecord → List Bytes
hashes [] = []
hashes (r ∷ rs) = r.hash ∷ hashes rs

-- `self.records[-1].hash if self.records else b""`
abbrev pub last_hash : List LedgerRecord → Bytes
last_hash rs = elim (get_last? rs) [ none ↦ [] | some r ↦ r.hash ]

-- The record goes to the ledger and to the current batch.
abbrev pub push : LedgerRecord → CreditLedger → CreditLedger
push r l = record l { records = l.records ++ r ∷ []; current_batch = l.current_batch ++ r ∷ [] }

module _ (p : Platform) where
  -- What is hashed for a record.
  unfoldable pub record_bytes : ℕ → ℕ → Bytes → Bytes → Bytes
  record_bytes index timestamp content prev =
      to_bytes 8 index
      ++ (p.pack_double timestamp ++ (to_bytes 8 (length content) ++ (content ++ prev)))

  unfoldable pub compute_record_hash : ℕ → ℕ → Bytes → Bytes → Bytes
  compute_record_hash index timestamp content prev =
      p.sha256 (record_bytes index timestamp content prev)

  unfoldable pub sign_root_hash : Bytes → Bytes → Bytes
  sign_root_hash key root = p.mac key root

  unfoldable pub verify_signature : Bytes → Bytes → Bytes → Bool
  verify_signature key root signature = same_bytes (sign_root_hash key root) signature

  -- `_finalize_batch` behind its test that the batch is not empty.
  unfoldable pub seal : ℕ → CreditLedger → CreditLedger
  seal now l =
      let root = Merkle.root_hash p (hashes l.records) in
      let signature = sign_root_hash l.signing_key root in
      record l {
        root_hash = root;
        signature = signature;
        signed_heads =
            l.signed_heads
            ++ record {
              root_hash = root;
              signature = signature;
              timestamp = now;
              size = length l.records;
              batch_index = l.batch_index;
            }
              ∷ [];
        current_batch = [];
        batch_index = l.batch_index + 1;
      }

  unfoldable pub finalize_batch : ℕ → CreditLedger → CreditLedger
  finalize_batch now l = elim l.current_batch [ [] ↦ l | r ∷ rs ↦ seal now l ]

  -- `force_finalize` tests the batch once more.
  unfoldable pub force_finalize : ℕ → CreditLedger → CreditLedger
  force_finalize now l = elim l.current_batch [ [] ↦ l | r ∷ rs ↦ finalize_batch now l ]

  -- The record that `append` makes.
  abbrev pub next_record : Bytes → ℕ → CreditLedger → LedgerRecord
  next_record content now l = record {
    index = length l.records;
    timestamp = now;
    data_bytes = content;
    prev_hash = last_hash l.records;
    hash = compute_record_hash (length l.records) now content (last_hash l.records);
    batch_index = l.batch_index;
  }

  -- The clock is read for the record, and again for the head.
  unfoldable pub append : Bytes → ℕ → ℕ → CreditLedger → ℕ × CreditLedger
  append content now now' l =
      let pushed = push (next_record content now l) l in
      (
        length l.records,
        if leb pushed.batch_size (length pushed.current_batch)
            then finalize_batch now' pushed
            else pushed,
      )

  -- The clock is read as `now` at every record, and as `now'` at every head.
  unfoldable append_each : List Bytes → ℕ → ℕ → CreditLedger → List ℕ × CreditLedger
  append_each [] now now' l = ([], l)
  append_each (content ∷ rest) now now' l =
      let (i, l') = append content now now' l in
      let (is, l'') = append_each rest now now' l' in (i ∷ is, l'')

  unfoldable pub append_batch : List Bytes → ℕ → ℕ → CreditLedger → List ℕ × CreditLedger
  unfolding append_each
  append_batch contents now now' l =
      let (is, l') = append_each contents now now' l in (is, force_finalize now' l')

  -- The clock is read as `written` for the entry, then by `append`.
  unfoldable pub add_credit :
      ℕ → ℕ → ℤ → Bytes → ℕ → ℕ → ℕ → CreditLedger → Outcome ℕ × CreditLedger
  add_credit contributor job amount metadata written now now' l =
      if ltb_ℤ amount (pos 0)
      then (value_error, l)
      else let content = p.dumps (
          credit (record {
            contributor_id = contributor;
            job_id = job;
            amount = amount;
            timestamp = written;
            metadata = metadata;
          })) in
        let (i, l') = append content now now' l in (returned i, l')

  unfoldable pub credit_to : ℕ → ℤ → ℕ → Bytes → ℕ → ℕ → ℕ → CreditLedger → Outcome ℕ × CreditLedger
  credit_to contributor amount job metadata written now now' l =
      add_credit contributor job amount metadata written now now' l

  unfoldable pub append_record : ℕ → ℕ → ℤ → Bytes → ℕ → ℕ → ℕ → ℕ → CreditLedger → ℕ × CreditLedger
  append_record node_id tx_type amount metadata job written now now' l =
      append (p.dumps (transaction node_id tx_type amount job written metadata)) now now' l
