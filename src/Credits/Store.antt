-- ===== src/Credits/Store.antt =====
-- `CreditsMixin` (legacy/services_python/db/_credits.py). The table credit_ledger is the list of its
-- rows by `tx_id`; a statement is the function on rows that its text says. The lock and the
-- transaction make each call one step.
pub mod Balances
pub mod Chained
use distrib_ai.Base.{
  ℕ, ◌+◌, ◌==◌, Bool, true, false, ◌&&◌, ◌||◌, not, Option, none, some, List, [], ◌∷◌, ◌++◌,
  if◌then◌else◌, get_last?, take, is_some, Outcome, returned, value_error,
}
use distrib_ai.Base.Int.{ℤ, pos, ◌+ℤ◌, ◌-ℤ◌, ltb_ℤ, leb_ℤ, max_ℤ}
use distrib_ai.Base.Dict.{Dict, lookup, insert}

-- The strings that the statements compare.
abbrev pub genesis : ℕ
genesis = 1

abbrev pub transfer_out : ℕ
transfer_out = 2

abbrev pub transfer_in : ℕ
transfer_in = 3

abbrev pub vote : ℕ
vote = 4

-- `metadata_json`: the caller's entries, or the tag and the note of a transfer.
pub data Metadata : Type 0 where
  given : (entries : List ℕ) → Metadata
  transferred : (transfer_id memo : ℕ) → Metadata

pub record Row : Type 0 where
  pub tx_id : ℕ
  pub node_id : ℕ
  pub tx_type : ℕ
  pub amount : ℤ
  pub balance_after : ℤ
  pub tx_hash : Option ℕ
  pub prev_hash : Option ℕ
  pub ts : ℕ
  pub metadata_json : Option Metadata

-- What `_chain_hash` hashes.
pub record Payload : Type 0 where
  pub prev : ℕ
  pub node : ℕ
  pub type : ℕ
  pub amount : ℤ
  pub balance_after : ℤ
  pub ts : ℕ

-- `SELECT COALESCE(SUM(amount), 0) ... WHERE node_id = ?`
abbrev pub balance : ℕ → List Row → ℤ
balance node [] = pos 0
balance node (r ∷ rs) = (if r.node_id == node then r.amount else pos 0) +ℤ balance node rs

-- The last hash of the node's rows that is not NULL.
abbrev pub last_hash_of : ℕ → Option ℕ → List Row → Option ℕ
last_hash_of node found [] = found
last_hash_of node found (r ∷ rs) =
    last_hash_of node
      (if r.node_id == node then elim r.tx_hash [ none ↦ found | some h ↦ some h ] else found) rs

-- `value or "genesis"`: NULL and the empty string are false.
abbrev pub or_genesis : Option ℕ → ℕ
or_genesis none = genesis
or_genesis (some h) = if h == 0 then genesis else h

abbrev pub latest_chain_hash : ℕ → List Row → ℕ
latest_chain_hash node rows = or_genesis (last_hash_of node none rows)

abbrev pub next_id : List Row → ℕ
next_id rows = elim (get_last? rows) [ none ↦ 1 | some r ↦ r.tx_id + 1 ]

-- `last_hash.get(node_id, "genesis")`
abbrev pub expected : ℕ → Dict ℕ → ℕ
expected node last = elim (lookup node last) [ none ↦ genesis | some h ↦ h ]

-- The entry that a row leaves in `last_hash`.
abbrev pub seen : Dict ℕ → Row → Dict ℕ
seen last r = insert r.node_id (elim r.tx_hash [ none ↦ expected r.node_id last | some h ↦ h ]) last

-- `digest` is the hexadecimal SHA-256 of the payload's JSON.
module _ (digest : Payload → ℕ) where
  unfoldable pub chain_hash : ℕ → ℕ → ℕ → ℤ → ℤ → ℕ → ℕ
  chain_hash prev node type amount after ts = digest (record {
    prev = prev;
    node = node;
    type = type;
    amount = amount;
    balance_after = after;
    ts = ts;
  })

  -- The row that is inserted for an amount.
  abbrev pub next_row : ℕ → ℤ → ℕ → Option Metadata → ℕ → List Row → Row
  next_row node amount type meta now rows =
      let prev = latest_chain_hash node rows in
      let after = balance node rows +ℤ amount in
      record {
        tx_id = next_id rows;
        node_id = node;
        tx_type = type;
        amount = amount;
        balance_after = after;
        tx_hash = some (chain_hash prev node type amount after now);
        prev_hash = some prev;
        ts = now;
        metadata_json = meta;
      }

  unfoldable pub add_credits : ℕ → ℤ → ℕ → Option Metadata → ℕ → List Row → ℕ × List Row
  add_credits node amount type meta now rows =
      (next_id rows, rows ++ next_row node amount type meta now rows ∷ [])

  -- The debit, and then the credit, which reads the rows with the debit.
  unfoldable pub move : ℕ → ℕ → ℤ → Metadata → ℕ → List Row → List Row
  move from to amount meta now rows =
      let debited =
        rows ++ next_row from (pos 0 -ℤ amount) transfer_out (some meta) now rows ∷ [] in
      debited ++ next_row to amount transfer_in (some meta) now debited ∷ []

  -- A `ValueError` rolls back.
  unfoldable pub transfer_credits_between_nodes :
      ℕ → ℕ → ℤ → ℕ → ℕ → ℕ → List Row → Outcome (Unit {0}) × List Row
  transfer_credits_between_nodes from to amount transfer_id memo now rows =
      if leb_ℤ amount (pos 0)
      then (value_error, rows)
      else if ltb_ℤ (balance from rows) amount
      then (value_error, rows)
      else (returned tt, move from to amount (transferred transfer_id memo) now rows)

  -- The identifier of a row that does not continue its node's chain, or does not match its hash.
  abbrev pub flagged : Dict ℕ → Row → List ℕ
  flagged last r = elim r.tx_hash [
    | none ↦ []
    | some h ↦
        let recomputed =
          chain_hash (or_genesis r.prev_hash) r.node_id r.tx_type r.amount r.balance_after r.ts in
        let continues = elim r.prev_hash as (λ _. Bool) [
          | none ↦ false
          | some q ↦ q == expected r.node_id last
        ] in
        if continues && recomputed == h then [] else r.tx_id ∷ []
  ]

  -- The loop of `verify_credit_chain`: the number of rows that are checked, and those that are broken.
  unfoldable pub check_chain : Dict ℕ → List Row → ℕ × List ℕ
  check_chain last [] = (0, [])
  check_chain last (r ∷ rs) =
      let (checked, broken) = check_chain (seen last r) rs in
      ((if is_some r.tx_hash then 1 else 0) + checked, flagged last r ++ broken)

  pub record ChainReport : Type 0 where
    pub ok : Bool
    pub checked : ℕ
    pub broken_tx_ids : List ℕ

  unfoldable pub verify_credit_chain : List Row → ChainReport
  verify_credit_chain rows =
      let (checked, broken) = check_chain [] rows in
      record {
        ok = elim broken [ [] ↦ true | b ∷ bs ↦ false ];
        checked = checked;
        broken_tx_ids = take 10 broken;
      }

-- The sums of `get_node_credits`.
pub record NodeCredits : Type 0 where
  pub balance : ℤ
  pub lifetime : ℤ
  pub votes_cast : ℤ

abbrev pub lifetime : ℕ → List Row → ℤ
lifetime node [] = pos 0
lifetime node (r ∷ rs) =
    (if r.node_id == node then max_ℤ r.amount (pos 0) else pos 0) +ℤ lifetime node rs

abbrev pub vote_sum : ℕ → List Row → ℤ
vote_sum node [] = pos 0
vote_sum node (r ∷ rs) =
    (if r.node_id == node && r.tx_type == vote then r.amount else pos 0) +ℤ vote_sum node rs

-- The node has a row.
abbrev pub occurs : ℕ → List Row → Bool
occurs node [] = false
occurs node (r ∷ rs) = r.node_id == node || occurs node rs

unfoldable pub get_node_credits : ℕ → List Row → Option NodeCredits
get_node_credits node rows =
    if occurs node rows && not (node == 0)
    then some (record {
      balance = balance node rows;
      lifetime = lifetime node rows;
      votes_cast = max_ℤ (vote_sum node rows) (pos 0 -ℤ vote_sum node rows);
    })
    else none

-- The nodes in the order of their first rows; SQL gives no order.
abbrev pub all_credits : List Row → List Row → Dict NodeCredits
all_credits all [] = []
all_credits all (r ∷ rs) =
    let rest = all_credits all rs in
    insert r.node_id
      (record {
        balance = balance r.node_id all;
        lifetime = lifetime r.node_id all;
        votes_cast = max_ℤ (vote_sum r.node_id all) (pos 0 -ℤ vote_sum r.node_id all);
      })
      rest

abbrev pub list_all_credits : List Row → Dict NodeCredits
list_all_credits rows = all_credits rows rows
