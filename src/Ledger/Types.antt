-- ===== src/Ledger/Types.antt =====
-- The state of legacy/worker/src/daemon/credit_ledger.py: its dataclasses, the fields of
-- `CreditLedger`, and what the code takes from the standard library. An amount is a signed number of
-- millionths of a credit, a time is a natural number of seconds, a name is a number (Base/Dict.antt).
use distrib_ai.Base.{
  ℕ, zero, suc, ◌/◌, ◌%◌, ◌^◌, Bool, true, false, ◌&&◌, ◌==◌, List, [], ◌∷◌, Option,
}
use distrib_ai.Base.Int.{ℤ}

abbrev pub Bytes : Type 0
Bytes = List ℕ

-- `a == b` of two byte strings.
abbrev pub same_bytes : Bytes → Bytes → Bool
same_bytes [] [] = true
same_bytes (a ∷ xs) (b ∷ ys) = a == b && same_bytes xs ys
same_bytes _ _ = false

-- `if b:` of a byte string.
abbrev pub non_empty : Bytes → Bool
non_empty [] = false
non_empty (b ∷ bs) = true

-- The members of a JSON object that the ledger reads.
pub record Members : Type 0 where
  pub contributor_id : Option ℕ
  pub job_id : Option ℕ
  pub amount : Option ℤ

-- What `json.loads(data.decode())` gives: a `UnicodeDecodeError`, a `JSONDecodeError`, a value that
-- is no object, or an object.
pub data Loaded : Type 0 where
  undecodable malformed other : Loaded
  object : Members → Loaded

pub record CreditEntry : Type 0 where
  pub contributor_id : ℕ
  pub job_id : ℕ
  pub amount : ℤ
  pub timestamp : ℕ
  pub metadata : Bytes

-- The objects that the ledger writes with `json.dumps`.
pub data Payload : Type 0 where
  credit : CreditEntry → Payload
  transaction :
      (node_id tx_type : ℕ) (amount : ℤ) (job_id timestamp : ℕ) (metadata : Bytes) → Payload
  stake : (contributor_id : ℕ) (amount : ℤ) (lock_period_days purpose unlocks_at : ℕ) → Payload
  unstake : (contributor_id : ℕ) (amount yield_amount total_return : ℤ) → Payload
  slash : (contributor_id : ℕ) (amount fraction : ℤ) (reason timestamp : ℕ) → Payload

-- What the code calls: SHA-256, HMAC-SHA256 of a key and a message, `struct.pack(">d", time)`, and
-- `json` with the encoding to bytes.
pub record Platform : Type 0 where
  pub sha256 : Bytes → Bytes
  pub mac : Bytes → Bytes → Bytes
  pub pack_double : ℕ → Bytes
  pub dumps : Payload → Bytes
  pub loads : Bytes → Loaded

-- `n.to_bytes(width, byteorder="big")`, for a number that fits.
unfoldable pub to_bytes : ℕ → ℕ → Bytes
to_bytes zero n = []
to_bytes (suc width) n = n / 256 ^ width % 256 ∷ to_bytes width n

pub record LedgerRecord : Type 0 where
  pub index : ℕ
  pub timestamp : ℕ
  pub data_bytes : Bytes
  pub prev_hash : Bytes
  pub hash : Bytes
  pub batch_index : ℕ

pub record SignedHead : Type 0 where
  pub root_hash : Bytes
  pub signature : Bytes
  pub timestamp : ℕ
  pub size : ℕ
  pub batch_index : ℕ

pub record ConsistencyProof : Type 0 where
  pub old_root : Bytes
  pub new_root : Bytes
  pub proof : List Bytes
  pub old_size : ℕ
  pub new_size : ℕ

pub record CreditLedger : Type 0 where
  pub records : List LedgerRecord
  pub root_hash : Bytes
  pub signature : Bytes
  pub signed_heads : List SignedHead
  pub batch_size : ℕ
  pub current_batch : List LedgerRecord
  pub batch_index : ℕ
  pub signing_key : Bytes
