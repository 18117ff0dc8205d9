-- ===== src/Credits/Transfers/History.antt =====
-- What `CreditTransferManager` tells of the transfers so far
-- (legacy/services_python/credit_transfers.py).
use distrib_ai.Base.{
  ℕ, ◌+◌, ◌-◌, ◌==◌, Bool, true, false, ◌&&◌, ◌||◌, List, [], ◌∷◌, ◌++◌, if◌then◌else◌, ltb, length,
  keep, skip, any_of,
}
use distrib_ai.Base.Int.{ℤ, pos, ◌+ℤ◌, ◌-ℤ◌, ltb_ℤ}
use distrib_ai.Credits.Transfers.{CreditTransfer, CreditTransferManager}

-- The argument `direction`, and an entry's direction.
pub data Direction : Type 0 where
  all outgoing incoming unknown : Direction

pub record Entry : Type 0 where
  pub transfer_id : ℕ
  pub direction : Direction
  pub counterparty : ℕ
  pub amount : ℤ
  pub reason : ℕ
  pub timestamp : ℕ
  pub tx_hash : ℕ

abbrev pub wants_outgoing : Direction → Bool
wants_outgoing all = true
wants_outgoing outgoing = true
wants_outgoing _ = false

abbrev pub wants_incoming : Direction → Bool
wants_incoming all = true
wants_incoming incoming = true
wants_incoming _ = false

abbrev pub entry_of : CreditTransfer → Direction → ℕ → ℤ → Entry
entry_of x direction other amount = record {
  transfer_id = x.transfer_id;
  direction = direction;
  counterparty = other;
  amount = amount;
  reason = x.reason;
  timestamp = x.timestamp;
  tx_hash = x.tx_hash;
}

abbrev pub entries_of : ℕ → Direction → CreditTransfer → List Entry
entries_of node direction x =
    if wants_outgoing direction && x.from_node_id == node
    then entry_of x outgoing x.to_node_id (pos 0 -ℤ x.amount) ∷ []
    else if wants_incoming direction && x.to_node_id == node
    then entry_of x incoming x.from_node_id x.amount ∷ []
    else []

-- The entries of the transfers, the latest first.
unfoldable pub history_of : ℕ → Direction → List CreditTransfer → List Entry
history_of node direction [] = []
history_of node direction (x ∷ xs) = history_of node direction xs ++ entries_of node direction x

abbrev pub get_transfer_history : ℕ → Direction → CreditTransferManager → List Entry
get_transfer_history node direction m = history_of node direction m.transfer_history

pub data Alert : Type 0 where
  rapid : (number : ℕ) → Alert
  round_trip : (other : ℕ) → Alert
  structuring : (number : ℕ) → Alert

abbrev pub involves : ℕ → CreditTransfer → Bool
involves node x = x.from_node_id == node || x.to_node_id == node

-- A transfer that came back within the hour.
abbrev pub returns : ℕ → CreditTransfer → CreditTransfer → Bool
returns node x y =
    y.to_node_id == node
    && (y.from_node_id == x.to_node_id
        && (ltb y.timestamp x.timestamp && ltb x.timestamp (y.timestamp + 3600)))

abbrev pub round_trips : ℕ → List CreditTransfer → List CreditTransfer → List Alert
round_trips node mine [] = []
round_trips node mine (x ∷ xs) =
    let rest = round_trips node mine xs in
    if x.from_node_id == node && any_of (returns node x) mine
    then round_trip x.to_node_id ∷ rest
    else rest

abbrev pub last_ten : List CreditTransfer → List CreditTransfer
last_ten xs = skip (length xs - 10) xs

unfoldable pub detect_suspicious_patterns : ℕ → ℕ → CreditTransferManager → List Alert
detect_suspicious_patterns node now m =
    let mine = keep (involves node) m.transfer_history in
    let late = length (keep (λ x. ltb now (x.timestamp + 300)) mine) in
    let small = length (keep (λ x. ltb_ℤ x.amount (pos 10000000)) mine) in
    (if ltb 5 late then rapid late ∷ [] else [])
    ++ round_trips node mine (last_ten mine)
    ++ (if ltb 20 (length mine) && ltb 15 small then structuring small ∷ [] else [])

pub record TransferStats : Type 0 where
  pub total_transfers : ℕ
  pub pending_transfers : ℕ
  pub total_volume : ℤ
  pub transfers_last_hour : ℕ

abbrev pub volume : List CreditTransfer → ℤ
volume [] = pos 0
volume (x ∷ xs) = x.amount +ℤ volume xs

-- Without the limits, which are constants.
unfoldable pub get_stats : ℕ → CreditTransferManager → TransferStats
get_stats now m = record {
  total_transfers = length m.transfer_history;
  pending_transfers = length m.pending_transfers;
  total_volume = volume m.transfer_history;
  transfers_last_hour = length (keep (λ x. ltb now (x.timestamp + 3600)) m.transfer_history);
}
