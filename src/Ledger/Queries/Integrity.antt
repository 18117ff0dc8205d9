-- ===== src/Ledger/Queries/Integrity.antt =====
-- What `verify_chain_integrity` says of a ledger that was only written to
-- (legacy/worker/src/daemon/credit_ledger.py).
use distrib_ai.Base.{
  ℕ, suc, ◌≡◌, ◌≢◌, ◌⊎◌, ◌↔◌, inl, inr, refl, sym, ap, ◌∙◌, subst, true, false, List, [], ◌∷◌, ◌++◌,
  none, some, arith, append-nil,
}
use distrib_ai.Ledger.Types.{Bytes, same_bytes, non_empty, Platform, LedgerRecord, CreditLedger}
use distrib_ai.Ledger.Merkle
use distrib_ai.Ledger.Chain.{
  append_batch, hashes, compute_record_hash, sign_root_hash, verify_signature,
}
use distrib_ai.Ledger.Chain.Invariant.{IsChained, unsigned, signed, IsValid, append_batch-IsValid}
use distrib_ai.Ledger.Queries.{check_links, check_root, verify_chain_integrity}

pub same_bytes_iff : (a b : Bytes) → (same_bytes a b ≡ true) ↔ (a ≡ b)
same_bytes_iff [] [] = (λ h. refl, λ h. refl)
same_bytes_iff [] (y ∷ ys) = (λ h. absurd (cc), λ h. absurd (cc))
same_bytes_iff (x ∷ xs) [] = (λ h. absurd (cc), λ h. absurd (cc))
same_bytes_iff (x ∷ xs) (y ∷ ys) = ground (arith, same_bytes_iff xs ys)

front_nil : {A : Type 0} (xs ys : List A) → xs ++ ys ≡ [] → xs ≡ []
front_nil [] ys e = refl
front_nil (x ∷ xs) ys e = absurd (cc)

module _ (p : Platform) where
  chained_links :
      (i : ℕ) (prev : Bytes) (rs : List LedgerRecord)
      → IsChained p i prev rs
      → check_links p (some prev) rs ≡ true
  unfolding check_links
  chained_links i prev [] h = refl
  chained_links i prev (r ∷ rs) h = ground (
    arith,
    (same_bytes_iff r.prev_hash prev).1 h.1,
    (same_bytes_iff r.hash (compute_record_hash p r.index r.timestamp r.data_bytes r.prev_hash)).1,
    chained_links (suc i) r.hash rs h.3,
  )

  first_links : (rs : List LedgerRecord) → IsChained p 0 [] rs → check_links p none rs ≡ true
  unfolding check_links
  first_links [] h = refl
  first_links (r ∷ rs) h = ground (
    arith,
    (same_bytes_iff r.hash (compute_record_hash p r.index r.timestamp r.data_bytes r.prev_hash)).1,
    chained_links 1 r.hash rs h.3,
  )

  -- The Merkle root of the ledger's records, computed now.
  abbrev pub root_now : CreditLedger → Bytes
  root_now l = Merkle.root_hash p (hashes l.records)

  records-cases : {A : Type 0} (rs : List A) → (rs ≡ []) ⊎ (rs ≢ [])
  records-cases [] = inl refl
  records-cases (r ∷ rs) = inr (λ e. cc)

  non_empty_cases :
      (b : Bytes) → ((b ≡ []) × (non_empty b ≡ false)) ⊎ ((b ≢ []) × (non_empty b ≡ true))
  non_empty_cases [] = inl (refl, refl)
  non_empty_cases (x ∷ b) = inr (λ e. cc, refl)

  no_root : (l : CreditLedger) → IsValid p l → l.records ≡ [] → l.root_hash ≡ []
  no_root l v e = elim v.head [
    | unsigned d r s ↦ r
    | signed d r s ↦ absurd (d (front_nil v.done l.current_batch (sym v.split ∙ e)))
  ]

  opened :
      (l : CreditLedger)
      → l.records ≢ []
      → check_links p none l.records ≡ true
      → verify_chain_integrity p l ≡ check_root p l
  unfolding verify_chain_integrity
  opened l n h = ground arith

  -- The test of the root, whatever the records.
  check_root_iff :
      (l : CreditLedger)
      → IsValid p l
      → (check_root p l ≡ true)
        ↔ ((l.root_hash ≡ []) ⊎ (l.signature ≡ []) ⊎ (root_now l ≡ l.root_hash))
  unfolding check_root verify_signature sign_root_hash
  check_root_iff l v = elim v.head [
    | unsigned d r s ↦ (λ h. inl r, λ h. rw r (refl))
    | signed d r s ↦ ground (
      arith,
      same_bytes_iff (root_now l) l.root_hash,
      (same_bytes_iff (p.mac l.signing_key l.root_hash) l.signature).1 (sym s),
      non_empty_cases l.root_hash,
      non_empty_cases l.signature,
    )
  ]

  -- On a ledger that was only written to, `verify_chain_integrity` answers `True` exactly if the root
  -- of all its records is the signed root, or that root or its signature is empty.
  pub verify_chain_integrity_iff :
      (l : CreditLedger)
      → IsValid p l
      → (verify_chain_integrity p l ≡ true)
        ↔ ((l.root_hash ≡ []) ⊎ (l.signature ≡ []) ⊎ (root_now l ≡ l.root_hash))
  unfolding verify_chain_integrity
  verify_chain_integrity_iff l v =
      let linked = first_links l.records v.chained in
      elim (records-cases l.records) [
        | inl e ↦ rw e (λ h. inl (no_root l v e), λ h. refl)
        | inr n ↦
            subst
              (λ b.
                (b ≡ true) ↔ ((l.root_hash ≡ []) ⊎ (l.signature ≡ []) ⊎ (root_now l ≡ l.root_hash)))
              (sym (opened l n linked)) (check_root_iff l v)
      ]

  sealed_root :
      (l : CreditLedger)
      → IsValid p l
      → l.current_batch ≡ []
      → (l.root_hash ≡ []) ⊎ (l.signature ≡ []) ⊎ (root_now l ≡ l.root_hash)
  sealed_root l v e = elim v.head [
    | unsigned d r s ↦ inl r
    | signed d r s ↦ inr (inr (ap (λ rs. Merkle.root_hash p (hashes rs)) (all_done l v e) ∙ sym r))
  ]
    where
      all_done : (l : CreditLedger) (v : IsValid p l) → l.current_batch ≡ [] → l.records ≡ v.done
      all_done l v e = v.split ∙ ap (λ b. v.done ++ b) e ∙ append-nil v.done

  -- On a valid ledger without unsealed records, `verify_chain_integrity` answers `True`.
  pub sealed_integrity :
      (l : CreditLedger) → IsValid p l → l.current_batch ≡ [] → verify_chain_integrity p l ≡ true
  sealed_integrity l v e = (verify_chain_integrity_iff l v).1 (sealed_root l v e)

  -- After `append_batch` on a valid ledger, `verify_chain_integrity` answers `True`.
  pub append_batch-verify_chain_integrity :
      (contents : List Bytes) (now now' : ℕ) (l : CreditLedger)
      → IsValid p l
      → verify_chain_integrity p (append_batch p contents now now' l).1 ≡ true
  append_batch-verify_chain_integrity contents now now' l v =
      let (valid, whole) = append_batch-IsValid p contents now now' l v in
      sealed_integrity (append_batch p contents now now' l).1 valid whole
