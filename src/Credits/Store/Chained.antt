-- ===== src/Credits/Store/Chained.antt =====
-- What `verify_credit_chain` says of rows that were only written by the ledger's own calls
-- (legacy/services_python/db/_credits.py).
use distrib_ai.Base.{
  ℕ, ◌≡◌, ◌≢◌, refl, ap, sym, subst, ◌∙◌, true, Option, none, some, List, [], ◌∷◌, ◌++◌,
  if◌then◌else◌, ◌==◌, arith, inl, inr, append-nil, append_assoc,
}
use distrib_ai.Base.Int.{ℤ, pos, ◌+ℤ◌, ◌-ℤ◌}
use distrib_ai.Base.Dict.{Dict, insert, lookup-insert}
use distrib_ai.Credits.Store.{
  Metadata, transferred, transfer_out, transfer_in, Row, Payload, balance, last_hash_of, or_genesis,
  latest_chain_hash, expected, chain_hash, next_row, add_credits, move, seen, flagged, check_chain,
  verify_credit_chain,
}
use distrib_ai.Credits.Store.Balances.{Booking, add, transfer, book, book_all, transfer-cases}

abbrev pub after : Dict ℕ → List Row → Dict ℕ
after last [] = last
after last (r ∷ rs) = after (seen last r) rs

-- No hash is the empty string.
abbrev pub HasHash : Row → Type 0
HasHash r = elim r.tx_hash [ none ↦ Unit | some h ↦ h ≢ 0 ]

abbrev pub Hashed : List Row → Type 0
Hashed [] = Unit
Hashed (r ∷ rs) = HasHash r × Hashed rs

Hashed-append : (rs : List Row) (r : Row) → Hashed rs → HasHash r → Hashed (rs ++ r ∷ [])
Hashed-append [] r h k = (k, tt)
Hashed-append (x ∷ rs) r h k = (h.0, Hashed-append rs r h.1 k)

expected-insert :
    (node k v : ℕ) (last : Dict ℕ)
    → expected node (insert k v last) ≡ (if node == k then v else expected node last)
expected-insert node k v last = ground (arith, lookup-insert k node v last)

seen-step :
    (node k : ℕ) (hash found : Option ℕ) (last : Dict ℕ)
    → (elim hash as (λ _. Type 0) [ none ↦ Unit | some h ↦ h ≢ 0 ])
    → expected node last ≡ or_genesis found
    → expected node (insert k (elim hash [ none ↦ expected k last | some h ↦ h ]) last)
      ≡ or_genesis (if k == node then elim hash [ none ↦ found | some h ↦ some h ] else found)
seen-step node k none found last h e =
    rw (expected-insert node k (expected k last) last) (ground (arith, e))
seen-step node k (some n) found last h e = rw (expected-insert node k n last) (ground (arith, e, h))

-- The two ways of finding the last hash of a node agree.
after-last_hash_of :
    (node : ℕ) (rs : List Row) (last : Dict ℕ) (found : Option ℕ)
    → Hashed rs
    → expected node last ≡ or_genesis found
    → expected node (after last rs) ≡ or_genesis (last_hash_of node found rs)
after-last_hash_of node [] last found h e = e
after-last_hash_of node (r ∷ rs) last found h e =
    after-last_hash_of node rs (seen last r)
      (if r.node_id == node then elim r.tx_hash [ none ↦ found | some n ↦ some n ] else found) h.1
      (seen-step node r.node_id r.tx_hash found last h.0 e)

or_genesis_nonempty : (o : Option ℕ) → or_genesis o ≢ 0
or_genesis_nonempty none = cc
or_genesis_nonempty (some h) = ground arith

same_number : (n : ℕ) → (n == n) ≡ true
same_number n = ground arith

module _ (digest : Payload → ℕ) where
  check_chain-append :
      (rs : List Row) (r : Row) (last : Dict ℕ)
      → (check_chain digest last (rs ++ r ∷ [])).1
        ≡ (check_chain digest last rs).1 ++ flagged digest (after last rs) r
  unfolding check_chain
  check_chain-append [] r last = append-nil (flagged digest last r)
  check_chain-append (x ∷ rs) r last =
      ap (λ b. flagged digest last x ++ b) (check_chain-append rs r (seen last x))
      ∙ sym (
          append_assoc (flagged digest last x) (check_chain digest (seen last x) rs).1
            (flagged digest (after (seen last x) rs) r))

  next_flagged :
      (node : ℕ) (amount : ℤ) (type : ℕ) (meta : Option Metadata) (now : ℕ) (rows : List Row)
      (last : Dict ℕ)
      → expected node last ≡ latest_chain_hash node rows
      → flagged digest last (next_row digest node amount type meta now rows) ≡ []
  next_flagged node amount type meta now rows last e =
      let prev = latest_chain_hash node rows in
      let same : or_genesis (some prev) ≡ prev =
        ground (arith, or_genesis_nonempty (last_hash_of node none rows)) in
      let kept =
        ap (λ q. chain_hash digest q node type amount (balance node rows +ℤ amount) now) same in
      rw
        (
          e,
          kept,
          same_number prev,
          same_number (chain_hash digest prev node type amount (balance node rows +ℤ amount) now),
        )
        refl

  -- The rows have a hash that is not the empty string, or none, and `verify_credit_chain` reports none.
  pub record IsVerified (rows : List Row) : Type 0 where
    pub hashed : Hashed rows
    pub unbroken : (check_chain digest [] rows).1 ≡ []

  append-IsVerified :
      (node : ℕ) (amount : ℤ) (type : ℕ) (meta : Option Metadata) (now : ℕ) (rows : List Row)
      → ((q : Payload) → digest q ≢ 0)
      → IsVerified rows
      → IsVerified (rows ++ next_row digest node amount type meta now rows ∷ [])
  unfolding chain_hash
  append-IsVerified node amount type meta now rows h v =
      let r = next_row digest node amount type meta now rows in
      let agree = after-last_hash_of node rows [] none v.hashed refl in
      record {
        hashed = Hashed-append rows r v.hashed (h _);
        unbroken =
            check_chain-append rows r []
            ∙ ap (λ b. b ++ flagged digest (after [] rows) r) v.unbroken
            ∙ next_flagged node amount type meta now rows (after [] rows) agree;
      }

  move-IsVerified :
      (from to : ℕ) (amount : ℤ) (meta : Metadata) (now : ℕ) (rows : List Row)
      → ((q : Payload) → digest q ≢ 0)
      → IsVerified rows
      → IsVerified (move digest from to amount meta now rows)
  unfolding move
  move-IsVerified from to amount meta now rows h v =
      append-IsVerified to amount transfer_in (some meta) now _ h
        (append-IsVerified from (pos 0 -ℤ amount) transfer_out (some meta) now rows h v)

  book-IsVerified :
      (b : Booking) (rows : List Row)
      → ((q : Payload) → digest q ≢ 0)
      → IsVerified rows
      → IsVerified (book digest b rows)
  unfolding book add_credits
  book-IsVerified (add node amount type meta now) rows h v =
      append-IsVerified node amount type meta now rows h v
  book-IsVerified (transfer from to amount id memo now) rows h v =
      elim (transfer-cases digest from to amount id memo now rows) [
        | inl (q, c, e) ↦
            subst (λ d. IsVerified d.1) (sym e)
              (move-IsVerified from to amount (transferred id memo) now rows h v)
        | inr e ↦ subst (λ d. IsVerified d.1) (sym e) v
      ]

  book_all-IsVerified :
      (bs : List Booking) (rows : List Row)
      → ((q : Payload) → digest q ≢ 0)
      → IsVerified rows
      → IsVerified (book_all digest bs rows)
  unfolding book_all
  book_all-IsVerified [] rows h v = v
  book_all-IsVerified (b ∷ bs) rows h v =
      book_all-IsVerified bs (book digest b rows) h (book-IsVerified b rows h v)

  -- After any run of `add_credits` and transfers on an empty ledger, `verify_credit_chain` reports no
  -- broken row, where no digest is the empty string.
  pub book_all-verify_credit_chain :
      (bs : List Booking)
      → ((q : Payload) → digest q ≢ 0)
      → (verify_credit_chain digest (book_all digest bs [])).ok ≡ true
  unfolding verify_credit_chain
  book_all-verify_credit_chain bs h =
      let v =
        book_all-IsVerified bs [] h
          (record { hashed = tt; unbroken = unfold check_chain in refl }) in
      rw (v.unbroken, verify_credit_chain) refl
