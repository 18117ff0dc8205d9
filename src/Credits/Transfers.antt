-- ===== src/Credits/Transfers.antt =====
-- `CreditTransferManager` (legacy/services_python/credit_transfers.py): the limits on transfers, and
-- their way through the database and the signed ledger. The database is an interface, `CreditStore`,
-- of the two calls that the manager makes.
pub mod Sync
pub mod Mirror
pub mod Sql
pub mod History
use distrib_ai.Base.{
  ℕ, ◌+◌, ◌==◌, Bool, true, false, ◌&&◌, ◌||◌, not, Option, none, some, List, [], ◌∷◌, ◌++◌, ◌⊎◌,
  inl, inr, if◌then◌else◌, ltb, leb, length, keep, Outcome, returned, value_error,
}
use distrib_ai.Base.Int.{ℤ, pos, ◌+ℤ◌, ◌-ℤ◌, ltb_ℤ, leb_ℤ}
use distrib_ai.Base.Dict.{Dict, lookup, insert, contains}
use distrib_ai.Ledger.Types.{Bytes}

pub record CreditTransfer : Type 0 where
  pub transfer_id : ℕ
  pub from_node_id : ℕ
  pub to_node_id : ℕ
  pub amount : ℤ
  pub reason : ℕ
  pub timestamp : ℕ
  pub tx_hash : ℕ

-- The answers of `db_manager`: a balance, where a node without rows has 0; and how a transfer ended,
-- with a `ValueError` or another exception.
pub data Persisted : Type 0 where
  done refused broken : Persisted

pub record CreditStore (S : Type 0) : Type 0 where
  pub get_balance : ℕ → S → ℤ
  pub transfer : ℕ → ℕ → ℤ → ℕ → ℕ → S → Persisted × S

-- One credit is a million; the limits of the class.
abbrev pub min_transfer_amount : ℤ
min_transfer_amount = pos 1000000

abbrev pub max_transfer_amount : ℤ
max_transfer_amount = pos 10000000000

abbrev pub max_transfers_per_hour : ℕ
max_transfers_per_hour = 10

-- Why a transfer is refused, as the messages say.
pub data Refusal : Type 0 where
  to_yourself below_minimum above_maximum invalid_amount insufficient too_many no_database : Refusal

pub record CreditTransferManager : Type 0 where
  pub pending_transfers : Dict CreditTransfer
  pub transfer_history : List CreditTransfer
  pub node_transfer_counts : Dict (List ℕ)

abbrev pub times_of : ℕ → Dict (List ℕ) → List ℕ
times_of node d = elim (lookup node d) [ none ↦ [] | some ts ↦ ts ]

-- `ts > now - 3600`
abbrev pub recent : ℕ → List ℕ → List ℕ
recent now ts = keep (λ t. ltb now (t + 3600)) ts

unfoldable pub check_velocity_limit : ℕ → ℕ → CreditTransferManager → Bool × CreditTransferManager
check_velocity_limit node now m =
    let ts = recent now (times_of node m.node_transfer_counts) in
    (
      ltb (length ts) max_transfers_per_hour,
      record m { node_transfer_counts = insert node ts m.node_transfer_counts },
    )

-- `none` as the balance is `float("inf")`. NaN and the infinities are no amounts here.
unfoldable pub validate_transfer :
    ℕ → ℕ → ℤ → Option ℤ → ℕ → CreditTransferManager → Option Refusal × CreditTransferManager
validate_transfer from to amount balance now m =
    let (within, m') = check_velocity_limit from now m in
    if from == to
    then (some to_yourself, m)
    else if ltb_ℤ amount min_transfer_amount
    then (some below_minimum, m)
    else if ltb_ℤ max_transfer_amount amount
    then (some above_maximum, m)
    else if leb_ℤ amount (pos 0)
    then (some invalid_amount, m)
    else if elim balance as (λ _. Bool) [ none ↦ false | some b ↦ ltb_ℤ b amount ]
    then (some insufficient, m)
    else if within
    then (none, m')
    else (some too_many, m')

-- The SHA-256 digests of `create_transfer`: the identifier, of the nodes and a time, and the hash of a
-- transfer, of its identifier, nodes, amount and time. `metadata` is the object that goes to the
-- signed ledger with a transfer and its counterparty, `team_pooling` the name "Team pooling".
pub record Digests : Type 0 where
  pub transfer_id : ℕ → ℕ → ℕ → ℕ
  pub transfer_hash : ℕ → ℕ → ℕ → ℤ → ℕ → ℕ
  pub metadata : CreditTransfer → ℕ → Bytes
  pub team_pooling : ℕ

-- The readings of the clock: for the first test of the velocity and for the second, for the
-- identifier, the transfer and the count, and those of the two records in the signed ledger.
pub record Readings : Type 0 where
  pub checked : ℕ
  pub checked_again : ℕ
  pub named : ℕ
  pub stamped : ℕ
  pub counted : ℕ
  pub written_out : ℕ
  pub appended_out : ℕ
  pub sealed_out : ℕ
  pub written_in : ℕ
  pub appended_in : ℕ
  pub sealed_in : ℕ

module _ (d : Digests) where
  -- `reason or "Team pooling"`
  abbrev pub or_pooling : ℕ → ℕ
  or_pooling reason = if reason == 0 then d.team_pooling else reason

  abbrev pub new_transfer : ℕ → ℕ → ℤ → ℕ → Readings → CreditTransfer
  new_transfer from to amount reason t =
      let id = d.transfer_id from to t.named in
      record {
        transfer_id = id;
        from_node_id = from;
        to_node_id = to;
        amount = amount;
        reason = or_pooling reason;
        timestamp = t.stamped;
        tx_hash = d.transfer_hash id from to amount t.stamped;
      }

  -- What `create_transfer` writes behind the validation.
  abbrev pub add_transfer : CreditTransfer → ℕ → CreditTransferManager → CreditTransferManager
  add_transfer x now m = record {
    pending_transfers = insert x.transfer_id x m.pending_transfers;
    transfer_history = m.transfer_history ++ x ∷ [];
    node_transfer_counts =
        insert x.from_node_id (times_of x.from_node_id m.node_transfer_counts ++ now ∷ [])
          m.node_transfer_counts;
  }

  -- A refusal, or the transfer that was made.
  unfoldable pub create_transfer :
      ℕ
      → ℕ
      → ℤ
      → ℕ
      → ℤ
      → Readings
      → CreditTransferManager
      → (Refusal ⊎ CreditTransfer) × CreditTransferManager
  create_transfer from to amount reason balance t m =
      let (error, m') = validate_transfer from to amount (some balance) t.checked_again m in
      elim error [
        | some e ↦ (inl e, m')
        | none ↦
            (let x = new_transfer from to amount reason t in (inr x, add_transfer x t.counted m'))
      ]

-- `del d[key]` of a key that is there, and `d.pop(key, None)`.
abbrev pub delete {ℓ} : {V : Type ℓ} → ℕ → Dict V → Dict V
delete key [] = []
delete key ((k, v) ∷ d) = if key == k then d else (k, v) ∷ delete key d

unfoldable pub confirm_transfer : ℕ → CreditTransferManager → Bool × CreditTransferManager
confirm_transfer id m =
    if contains id m.pending_transfers
    then (true, record m { pending_transfers = delete id m.pending_transfers })
    else (false, m)

-- `a == b` of two transfers, which `list.remove` uses.
abbrev pub same_amount : ℤ → ℤ → Bool
same_amount a b = leb_ℤ a b && leb_ℤ b a

abbrev pub same_transfer : CreditTransfer → CreditTransfer → Bool
same_transfer x y =
    x.transfer_id == y.transfer_id
    && (x.from_node_id == y.from_node_id
        && (x.to_node_id == y.to_node_id
            && (same_amount x.amount y.amount
                && (x.reason == y.reason
                    && (x.timestamp == y.timestamp && x.tx_hash == y.tx_hash)))))

abbrev pub remove_first : CreditTransfer → List CreditTransfer → List CreditTransfer
remove_first x [] = []
remove_first x (y ∷ ys) = if same_transfer y x then ys else y ∷ remove_first x ys

unfoldable pub rollback_transfer_record :
    CreditTransfer → CreditTransferManager → CreditTransferManager
rollback_transfer_record x m = record m {
  pending_transfers = delete x.transfer_id m.pending_transfers;
  transfer_history = remove_first x m.transfer_history;
}
