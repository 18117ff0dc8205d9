-- ===== src/Ledger/Queries/Balance.antt =====
-- Credits and balances (legacy/worker/src/daemon/credit_ledger.py, `add_credit` and `get_balance`).
use distrib_ai.Base.{
  ℕ, ◌≡◌, ◌↔◌, refl, true, false, List, [], ◌∷◌, ◌++◌, some, if◌then◌else◌, ◌==◌, arith, returned,
  value_error, attribute_error,
}
use distrib_ai.Base.Int.{ℤ, pos, ◌+ℤ◌, ltb_ℤ}
use distrib_ai.Ledger.Types.{
  Bytes, CreditEntry, credit, Members, Loaded, undecodable, malformed, other, object, Platform,
  LedgerRecord, CreditLedger,
}
use distrib_ai.Ledger.Chain.{append, add_credit, finalize_batch, next_record, seal}
use distrib_ai.Ledger.Queries.{balance_from, get_balance, is_by, amount_of}

raises : {b : ℤ} → attribute_error ≡ returned b → ⊥
raises e = cc

module _ (p : Platform) where
  -- `json` gives back what it wrote of a credit.
  abbrev pub LoadsCredits : Type 0
  LoadsCredits =
      (e : CreditEntry)
      → p.loads (p.dumps (credit e))
        ≡ object (record {
          contributor_id = some e.contributor_id;
          job_id = some e.job_id;
          amount = some e.amount;
        })

  -- `append` writes one record behind the others, whether it ends the batch or not.
  pub append-records :
      (content : Bytes) (now now' : ℕ) (l : CreditLedger)
      → (append p content now now' l).1.records ≡ l.records ++ next_record p content now l ∷ []
  unfolding append finalize_batch seal
  append-records content now now' l = ground arith

  pub balance_from-append :
      (b b' : ℤ) (c : ℕ) (rs : List LedgerRecord) (r : LedgerRecord) (m : Members)
      → balance_from p b c rs ≡ returned b'
      → p.loads r.data_bytes ≡ object m
      → balance_from p b c (rs ++ r ∷ [])
        ≡ returned (if is_by p c m then b' +ℤ amount_of p m else b')
  unfolding balance_from
  balance_from-append b b' c [] r m h k = rw k (ground (arith, h))
  balance_from-append b b' c (x ∷ rs) r m h k =
      by_loaded (p.loads x.data_bytes) refl (λ a g. balance_from-append a b' c rs r m g k)
    where
      by_loaded :
          (d : Loaded)
          → p.loads x.data_bytes ≡ d
          → ((a : ℤ)
              → balance_from p a c rs ≡ returned b'
              → balance_from p a c (rs ++ r ∷ [])
                ≡ returned (if is_by p c m then b' +ℤ amount_of p m else b'))
          → balance_from p b c ((x ∷ rs) ++ r ∷ [])
            ≡ returned (if is_by p c m then b' +ℤ amount_of p m else b')
      by_loaded undecodable w next = rw w (next b (rw (w, balance_from) at h))
      by_loaded malformed w next = rw w (next b (rw (w, balance_from) at h))
      by_loaded other w next = absurd (raises (rw (w, balance_from) at h))
      by_loaded (object n) w next =
          rw w (next (if is_by p c n then b +ℤ amount_of p n else b) (rw (w, balance_from) at h))

  -- After a credit that is not negative, the balance of the contributor is larger by its amount, and
  -- every other balance is what it was, where `json` gives back what it wrote of a credit and the
  -- balance could be read before.
  pub add_credit-get_balance :
      (contributor job : ℕ) (amount : ℤ) (metadata : Bytes) (written now now' : ℕ) (c : ℕ) (b : ℤ)
      (l : CreditLedger)
      → LoadsCredits
      → ltb_ℤ amount (pos 0) ≡ false
      → get_balance p c l ≡ returned b
      → get_balance p c (add_credit p contributor job amount metadata written now now' l).1
        ≡ returned (if contributor == c then b +ℤ amount else b)
  unfolding get_balance add_credit
  add_credit-get_balance contributor job amount metadata written now now' c b l loads h k =
      let e : CreditEntry = record {
        contributor_id = contributor;
        job_id = job;
        amount = amount;
        timestamp = written;
        metadata = metadata;
      } in
      let content = p.dumps (credit e) in
      rw h (
        rw (append-records content now now' l)
          (balance_from-append (pos 0) b c l.records (next_record p content now l) _ k (loads e)))

  -- `add_credit` raises `ValueError` and leaves the ledger as it was exactly if the amount is negative.
  pub add_credit_negative :
      (contributor job : ℕ) (amount : ℤ) (metadata : Bytes) (written now now' : ℕ)
      (l : CreditLedger)
      → (add_credit p contributor job amount metadata written now now' l ≡ (value_error, l))
        ↔ (ltb_ℤ amount (pos 0) ≡ true)
  unfolding add_credit
  add_credit_negative contributor job amount metadata written now now' l = ground arith
