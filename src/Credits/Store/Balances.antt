-- ===== src/Credits/Store/Balances.antt =====
-- What the writes of the SQL ledger do to the balances (legacy/services_python/db/_credits.py).
use distrib_ai.Base.{
  ℕ, ◌≡◌, ◌⊎◌, refl, ap, sym, subst, ◌∙◌, Bool, true, Option, some, List, [], ◌∷◌, ◌++◌, All,
  if◌then◌else◌, ◌==◌, arith, Bool-cases, inl, inr, Outcome, returned, value_error,
}
use distrib_ai.Base.Int.{ℤ, pos, ◌+ℤ◌, ◌-ℤ◌, ◌≤ℤ◌, int_laws}
use distrib_ai.Credits.Store.{
  Metadata, transferred, transfer_out, transfer_in, Row, Payload, balance, next_row, add_credits,
  move, transfer_credits_between_nodes,
}

assoc : (a b c : ℤ) → a +ℤ (b +ℤ c) ≡ a +ℤ b +ℤ c
assoc a b c = omega int_laws

zero_sum : (a : ℤ) → pos 0 +ℤ a ≡ a
zero_sum a = omega int_laws

at_end : (a : ℤ) → a +ℤ pos 0 ≡ pos 0 +ℤ a
at_end a = omega int_laws

pub balance-append :
    (node : ℕ) (rs : List Row) (r : Row)
    → balance node (rs ++ r ∷ [])
      ≡ balance node rs +ℤ (if r.node_id == node then r.amount else pos 0)
balance-append node [] r = at_end (if r.node_id == node then r.amount else pos 0)
balance-append node (x ∷ rs) r =
    ap (λ a. (if x.node_id == node then x.amount else pos 0) +ℤ a) (balance-append node rs r)
    ∙ assoc (if x.node_id == node then x.amount else pos 0) (balance node rs)
        (if r.node_id == node then r.amount else pos 0)

-- The sum of all amounts, which is the credits of all nodes together.
abbrev pub total : List Row → ℤ
total [] = pos 0
total (r ∷ rs) = r.amount +ℤ total rs

total-append : (rs : List Row) (r : Row) → total (rs ++ r ∷ []) ≡ total rs +ℤ r.amount
total-append [] r = at_end r.amount
total-append (x ∷ rs) r =
    ap (λ a. x.amount +ℤ a) (total-append rs r) ∙ assoc x.amount (total rs) r.amount

-- No node owes anything.
abbrev pub IsCovered : List Row → Type 0
IsCovered rows = (node : ℕ) → pos 0 ≤ℤ balance node rows

cancel : (t a : ℤ) → t +ℤ (pos 0 -ℤ a) +ℤ a ≡ t
cancel t a = omega int_laws

left_over : (b a c : ℤ) → a ≤ℤ b → pos 0 ≤ℤ c → pos 0 ≤ℤ b +ℤ (pos 0 -ℤ a) +ℤ c
left_over b a c h k = omega int_laws

nonneg : (a : ℤ) → pos 1 ≤ℤ a → pos 0 ≤ℤ a
nonneg a h = omega int_laws

sum_nonneg : (b c : ℤ) → pos 0 ≤ℤ b → pos 0 ≤ℤ c → pos 0 ≤ℤ b +ℤ c
sum_nonneg b c h k = omega int_laws

grown : (b c : ℤ) → pos 0 ≤ℤ b → pos 0 ≤ℤ c → pos 0 ≤ℤ b +ℤ pos 0 +ℤ c
grown b c h k = omega int_laws

==_lem : (a b : ℕ) → (a == b) ≡ true → a ≡ b
==_lem a b h = ground arith

if_nonneg : (t : Bool) (a : ℤ) → pos 0 ≤ℤ a → pos 0 ≤ℤ (if t then a else pos 0)
if_nonneg t a h = ground arith

module _ (digest : Payload → ℕ) where
  abbrev pub moved : ℕ → ℕ → ℤ → ℕ → ℤ → ℤ
  moved from to amount node b =
      b
      +ℤ (if from == node then pos 0 -ℤ amount else pos 0)
      +ℤ (if to == node then amount else pos 0)

  pub move-balance :
      (from to : ℕ) (amount : ℤ) (meta : Metadata) (now node : ℕ) (rows : List Row)
      → balance node (move digest from to amount meta now rows)
        ≡ moved from to amount node (balance node rows)
  unfolding move
  move-balance from to amount meta now node rows =
      let out = next_row digest from (pos 0 -ℤ amount) transfer_out (some meta) now rows in
      let debited = rows ++ out ∷ [] in
      balance-append node debited (next_row digest to amount transfer_in (some meta) now debited)
      ∙ ap (λ b. b +ℤ (if to == node then amount else pos 0)) (balance-append node rows out)

  move-total :
      (from to : ℕ) (amount : ℤ) (meta : Metadata) (now : ℕ) (rows : List Row)
      → total (move digest from to amount meta now rows) ≡ total rows
  unfolding move
  move-total from to amount meta now rows =
      let out = next_row digest from (pos 0 -ℤ amount) transfer_out (some meta) now rows in
      let debited = rows ++ out ∷ [] in
      total-append debited (next_row digest to amount transfer_in (some meta) now debited)
      ∙ ap (λ t. t +ℤ amount) (total-append rows out)
      ∙ cancel (total rows) amount

  -- How a transfer ends: it is refused and nothing changes, or the amount is positive and covered, and
  -- it is moved.
  pub transfer-cases :
      (from to : ℕ) (amount : ℤ) (id memo now : ℕ) (rows : List Row)
      → ((pos 1 ≤ℤ amount)
          × (amount ≤ℤ balance from rows)
          × (transfer_credits_between_nodes digest from to amount id memo now rows
              ≡ (returned tt, move digest from to amount (transferred id memo) now rows)))
        ⊎ (transfer_credits_between_nodes digest from to amount id memo now rows
            ≡ (value_error, rows))
  unfolding transfer_credits_between_nodes
  transfer-cases from to amount id memo now rows = ground arith

  -- What a transfer does to the total and to the balance of a node.
  abbrev pub Settles : ℕ → ℕ → ℤ → ℕ → List Row → Outcome (Unit {0}) × List Row → Type 0
  Settles from to amount node rows done =
      (total done.1 ≡ total rows)
      × (((done.0 ≡ returned tt)
            × (balance node done.1 ≡ moved from to amount node (balance node rows)))
          ⊎ ((done.0 ≡ value_error) × (done.1 ≡ rows)))

  -- A transfer that returns has taken the amount from the balance of the one node, added it to that of
  -- the other and left all others alone; one that raises has changed nothing. The credits of all nodes
  -- together stay the same either way.
  pub transfer_credits-Settles :
      (from to : ℕ) (amount : ℤ) (id memo now node : ℕ) (rows : List Row)
      → Settles from to amount node rows
          (transfer_credits_between_nodes digest from to amount id memo now rows)
  transfer_credits-Settles from to amount id memo now node rows =
      elim (transfer-cases from to amount id memo now rows) [
        | inl (p, c, e) ↦
            let meta = transferred id memo in
            subst (Settles from to amount node rows) (sym e) (
              move-total from to amount meta now rows,
              inl (refl, move-balance from to amount meta now node rows),
            )
        | inr e ↦ subst (Settles from to amount node rows) (sym e) (refl, inr (refl, refl))
      ]

  move-IsCovered :
      (from to : ℕ) (amount : ℤ) (meta : Metadata) (now : ℕ) (rows : List Row)
      → pos 0 ≤ℤ amount
      → amount ≤ℤ balance from rows
      → IsCovered rows
      → IsCovered (move digest from to amount meta now rows)
  move-IsCovered from to amount meta now rows p c h node =
      rw (move-balance from to amount meta now node rows) (elim (Bool-cases (from == node)) [
        | inl same ↦
            let mine : amount ≤ℤ balance node rows =
              subst (λ n. amount ≤ℤ balance n rows) (==_lem from node same) c in
            rw same (
              left_over (balance node rows) amount (if to == node then amount else pos 0) mine
                (if_nonneg (to == node) amount p))
        | inr other ↦ rw other (
            grown (balance node rows) (if to == node then amount else pos 0) (h node)
              (if_nonneg (to == node) amount p))
      ])

  add-IsCovered :
      (node' : ℕ) (amount : ℤ) (type : ℕ) (meta : Option Metadata) (now : ℕ) (rows : List Row)
      → pos 0 ≤ℤ amount
      → IsCovered rows
      → IsCovered (add_credits digest node' amount type meta now rows).1
  unfolding add_credits
  add-IsCovered node' amount type meta now rows p h node =
      rw (balance-append node rows (next_row digest node' amount type meta now rows)) (
        sum_nonneg (balance node rows) (if node' == node then amount else pos 0) (h node)
          (if_nonneg (node' == node) amount p))

-- A call that writes to the ledger, with its reading of the clock.
pub data Booking : Type 0 where
  add : (node : ℕ) (amount : ℤ) (type : ℕ) (meta : Option Metadata) (now : ℕ) → Booking
  transfer : (from to : ℕ) (amount : ℤ) (id memo now : ℕ) → Booking

-- Credits are added, and not taken away.
abbrev pub IsEarning : Booking → Type 0
IsEarning (add node amount type meta now) = pos 0 ≤ℤ amount
IsEarning (transfer from to amount id memo now) = Unit

module _ (digest : Payload → ℕ) where
  unfoldable pub book : Booking → List Row → List Row
  book (add node amount type meta now) rows = (add_credits digest node amount type meta now rows).1
  book (transfer from to amount id memo now) rows =
      (transfer_credits_between_nodes digest from to amount id memo now rows).1

  unfoldable pub book_all : List Booking → List Row → List Row
  book_all [] rows = rows
  book_all (b ∷ bs) rows = book_all bs (book b rows)

  book-IsCovered :
      (b : Booking) (rows : List Row) → IsEarning b → IsCovered rows → IsCovered (book b rows)
  unfolding book
  book-IsCovered (add node amount type meta now) rows p h =
      add-IsCovered digest node amount type meta now rows p h
  book-IsCovered (transfer from to amount id memo now) rows p h =
      elim (transfer-cases digest from to amount id memo now rows) [
        | inl (q, c, e) ↦
            subst (λ d. IsCovered d.1) (sym e)
              (move-IsCovered digest from to amount (transferred id memo) now rows (nonneg amount q)
                c h)
        | inr e ↦ subst (λ d. IsCovered d.1) (sym e) h
      ]

  -- Where credits are only added, whatever transfers are asked for, no node's balance gets below zero.
  pub book_all-IsCovered :
      (bs : List Booking) (rows : List Row)
      → All IsEarning bs
      → IsCovered rows
      → IsCovered (book_all bs rows)
  unfolding book_all
  book_all-IsCovered [] rows ps h = h
  book_all-IsCovered (b ∷ bs) rows ps h =
      book_all-IsCovered bs (book b rows) ps.1 (book-IsCovered b rows ps.0 h)
