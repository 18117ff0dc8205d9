-- ===== src/Credits/Transfers/Sql.antt =====
-- The SQL ledger as the database of the transfers (legacy/services_python/credit_transfers.py with
-- legacy/services_python/db/_credits.py).
use distrib_ai.Base.{
  ℕ, ◌==◌, ◌≡◌, ◌≢◌, ◌⊎◌, inl, inr, refl, sym, ap, ◌∙◌, Bool, false, ◌||◌, none, some, List, [],
  ◌∷◌, arith, Bool-cases, Outcome, returned, value_error,
}
use distrib_ai.Base.Int.{ℤ, pos, ◌+ℤ◌, int_laws}
use distrib_ai.Credits.Store.{
  Row, Payload, transferred, balance, occurs, get_node_credits, move,
  transfer_credits_between_nodes,
}
use distrib_ai.Credits.Store.Balances.{move-balance, transfer-cases}
use distrib_ai.Credits.Transfers.{Persisted, done, refused, broken, CreditStore}
use distrib_ai.Credits.Transfers.Mirror.{CreditStoreLaws, shifted}

-- The balance that the manager reads.
unfoldable pub read_balance : ℕ → List Row → ℤ
read_balance node rows = elim (get_node_credits node rows) [ none ↦ pos 0 | some c ↦ c.balance ]

abbrev ending : Outcome (Unit {0}) → Persisted
ending (returned u) = done
ending value_error = refused
ending _ = broken

module _ (digest : Payload → ℕ) (now : ℕ) where
  unfoldable pub persist_row : ℕ → ℕ → ℤ → ℕ → ℕ → List Row → Persisted × List Row
  persist_row from to amount id memo rows =
      let (ended, rows') = transfer_credits_between_nodes digest from to amount id memo now rows in
      (ending ended, rows')

  -- The calls that the manager makes, in a transaction at `now`.
  abbrev pub sql_store : CreditStore (List Row)
  sql_store = record { get_balance = read_balance; transfer = persist_row }

zero_sum : (a : ℤ) → pos 0 +ℤ a ≡ a
zero_sum a = omega int_laws

or_false : (a b : Bool) → (a || b) ≡ false → (a ≡ false) × (b ≡ false)
or_false a b h = ground arith

balance_absent : (node : ℕ) (rows : List Row) → occurs node rows ≡ false → balance node rows ≡ pos 0
balance_absent node [] h = refl
balance_absent node (r ∷ rs) h =
    let (e, k) = or_false (r.node_id == node) (occurs node rs) h in
    rw e (zero_sum (balance node rs) ∙ balance_absent node rs k)

not_zero : (n : ℕ) → n ≢ 0 → (n == 0) ≡ false
not_zero n h = ground arith

-- Whatever rows there are, the balance that is read is the sum of the node's amounts.
pub read_balance_sum :
    (node : ℕ) (rows : List Row) → node ≢ 0 → read_balance node rows ≡ balance node rows
unfolding read_balance get_node_credits
read_balance_sum node rows nz = elim (Bool-cases (occurs node rows)) [
  | inl e ↦ rw (e, not_zero node nz, read_balance, get_node_credits) refl
  | inr e ↦ rw (e, read_balance, get_node_credits) (sym (balance_absent node rows e))
]

module _ (digest : Payload → ℕ) (now : ℕ) where
  persisted_row :
      (from to : ℕ) (amount : ℤ) (id memo : ℕ) (rows : List Row)
      → (persist_row digest now from to amount id memo rows
          ≡ (done, move digest from to amount (transferred id memo) now rows))
        ⊎ (persist_row digest now from to amount id memo rows ≡ (refused, rows))
  unfolding persist_row
  persisted_row from to amount id memo rows =
      elim (transfer-cases digest from to amount id memo now rows) [
        | inl (p, c, e) ↦ inl (rw e refl)
        | inr e ↦ inr (rw e refl)
      ]

  -- The SQL ledger keeps the promises that the transfers rest on: a transfer that it reports done has
  -- moved the amount, and one that it does not has left every balance alone.
  pub sql_store-CreditStoreLaws : CreditStoreLaws (sql_store digest now)
  sql_store-CreditStoreLaws = record {
    moves = λ from to amount id memo node rows k nz.
        elim (persisted_row from to amount id memo rows) [
          | inl e ↦ rw e (
              read_balance_sum node _ nz
              ∙ move-balance digest from to amount (transferred id memo) now node rows
              ∙ ap (shifted from to amount node) (sym (read_balance_sum node rows nz)))
          | inr e ↦ ground (arith, e, k)
        ];
    keeps = λ from to amount id memo node rows k nz.
        elim (persisted_row from to amount id memo rows) [
          | inl e ↦ ground (arith, e, k)
          | inr e ↦ rw e refl
        ];
  }
