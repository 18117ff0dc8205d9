-- ===== src/Ledger/Chain/Invariant.antt =====
-- What every write keeps: the chain of hashes, the batches and the signed heads
-- (legacy/worker/src/daemon/credit_ledger.py).
use distrib_ai.Base.{
  ℕ, suc, ◌+◌, ◌<◌, ◌≡◌, ◌≢◌, ◌⊎◌, inl, inr, refl, sym, ap, ◌∙◌, subst, List, [], ◌∷◌, ◌++◌, length,
  leb, arith, Bool-cases, append-nil, append_assoc,
}
use distrib_ai.Ledger.Types.{Bytes, Platform, LedgerRecord, SignedHead, CreditLedger}
use distrib_ai.Ledger.Merkle
use distrib_ai.Ledger.Chain.{
  new_ledger, hashes, last_hash, compute_record_hash, sign_root_hash, seal, finalize_batch,
  force_finalize, next_record, push, append, append_batch, append_each,
}

-- The hash behind the records.
abbrev pub end_hash : Bytes → List LedgerRecord → Bytes
end_hash prev [] = prev
end_hash prev (r ∷ rs) = end_hash r.hash rs

last_hash-eq : (r : LedgerRecord) (rs : List LedgerRecord) → last_hash (r ∷ rs) ≡ end_hash r.hash rs
last_hash-eq r [] = refl
last_hash-eq r (s ∷ rs) = last_hash-eq s rs

last_hash-end : (rs : List LedgerRecord) → last_hash rs ≡ end_hash [] rs
last_hash-end [] = refl
last_hash-end (r ∷ rs) = last_hash-eq r rs

module _ (p : Platform) where
  -- The records behind the first `i`, which end with the hash `prev`: each has its place for its
  -- index, the hash before it, and the hash of its own content.
  abbrev pub IsChained : ℕ → Bytes → List LedgerRecord → Type 0
  IsChained i prev [] = Unit
  IsChained i prev (r ∷ rs) =
      (r.index ≡ i)
      × (r.prev_hash ≡ prev)
      × (r.hash ≡ compute_record_hash p i r.timestamp r.data_bytes prev)
      × IsChained (suc i) r.hash rs

  IsChained-append :
      (i : ℕ) (prev : Bytes) (rs : List LedgerRecord) (r : LedgerRecord)
      → IsChained i prev rs
      → IsChained (i + length rs) (end_hash prev rs) (r ∷ [])
      → IsChained i prev (rs ++ r ∷ [])
  IsChained-append i prev [] r h k = rw (plus_zero i) at k
    where
      plus_zero : (n : ℕ) → n + 0 ≡ n
      plus_zero n = omega arith
  IsChained-append i prev (x ∷ rs) r h k =
      (h.0, h.1, h.2, IsChained-append (suc i) x.hash rs r h.3 (rw (plus_suc i (length rs)) at k))
    where
      plus_suc : (n m : ℕ) → n + suc m ≡ suc n + m
      plus_suc n m = omega arith

-- The heads are numbered from `i` on.
abbrev pub IsNumbered : ℕ → List SignedHead → Type 0
IsNumbered i [] = Unit
IsNumbered i (h ∷ hs) = (h.batch_index ≡ i) × IsNumbered (suc i) hs

IsNumbered-append :
    (i : ℕ) (hs : List SignedHead) (h : SignedHead)
    → IsNumbered i hs
    → h.batch_index ≡ i + length hs
    → IsNumbered i (hs ++ h ∷ [])
IsNumbered-append i [] h n e = (omega arith, tt)
IsNumbered-append i (x ∷ hs) h n e = (n.0, IsNumbered-append (suc i) hs h n.1 (omega arith))

pub length_snoc : {A : Type 0} (xs : List A) (x : A) → length (xs ++ x ∷ []) ≡ length xs + 1
length_snoc [] x = omega arith
length_snoc (y ∷ xs) x = omega (arith, length_snoc xs x)

pub nil-cases : {A : Type 0} (xs : List A) → (xs ≡ []) ⊎ (xs ≢ [])
nil-cases [] = inl refl
nil-cases (x ∷ xs) = inr (λ e. cc)

pub append-eq-nil : {A : Type 0} (xs ys : List A) → xs ++ ys ≡ [] → ys ≡ []
append-eq-nil [] ys e = e
append-eq-nil (x ∷ xs) ys e = absurd (cc)

pub append-ne-nil : {A : Type 0} (xs : List A) (x : A) → xs ++ x ∷ [] ≢ []
append-ne-nil [] x e = cc
append-ne-nil (y ∷ xs) x e = cc

module _ (p : Platform) where
  -- What the head says of the records `done`: nothing yet, or their Merkle root, signed.
  pub data IsSigned (done : List LedgerRecord) (root signature key : Bytes) : Type 0 where
    unsigned : done ≡ [] → root ≡ [] → signature ≡ [] → IsSigned done root signature key
    signed :
        done ≢ []
        → root ≡ Merkle.root_hash p (hashes done)
        → signature ≡ sign_root_hash p key root
        → IsSigned done root signature key

  -- The records form a chain, they are those of the sealed batches and of the current one, the heads
  -- are numbered by their batches, the last head stands for the sealed records, and the current batch
  -- is not full.
  pub record IsValid (l : CreditLedger) : Type 0 where
    pub chained : IsChained p 0 [] l.records
    pub batches : l.batch_index ≡ length l.signed_heads
    pub numbered : IsNumbered 0 l.signed_heads
    pub done : List LedgerRecord
    pub split : l.records ≡ done ++ l.current_batch
    pub head : IsSigned done l.root_hash l.signature l.signing_key
    pub room : 0 < l.batch_size → length l.current_batch < l.batch_size

  -- All of it but that the batch is not full.
  record IsWhole (l : CreditLedger) : Type 0 where
    chained : IsChained p 0 [] l.records
    batches : l.batch_index ≡ length l.signed_heads
    numbered : IsNumbered 0 l.signed_heads
    done : List LedgerRecord
    split : l.records ≡ done ++ l.current_batch
    head : IsSigned done l.root_hash l.signature l.signing_key

  pub new_ledger-IsValid : (key : Bytes) (batch_size : ℕ) → IsValid (new_ledger key batch_size)
  new_ledger-IsValid key n = record {
    chained = tt;
    batches = refl;
    numbered = tt;
    done = [];
    split = refl;
    head = unsigned refl refl refl;
    room = λ h. h;
  }

  zero_plus : (n : ℕ) → 0 + n ≡ n
  zero_plus n = omega arith

  push-IsWhole :
      (content : Bytes) (now : ℕ) (l : CreditLedger)
      → IsValid l
      → IsWhole (push (next_record p content now l) l)
  push-IsWhole content now l v =
      let r = next_record p content now l in
      let linked = last_hash-end l.records in
      record {
        chained = IsChained-append p 0 [] l.records r v.chained (
          omega arith,
          linked,
          rw (zero_plus (length l.records))
              (ap (compute_record_hash p (length l.records) now content) linked),
          tt,
        );
        batches = v.batches;
        numbered = v.numbered;
        done = v.done;
        split = ap (λ rs. rs ++ r ∷ []) v.split ∙ append_assoc v.done l.current_batch (r ∷ []);
        head = v.head;
      }

  -- Sealing the current batch moves its records to the sealed ones.
  seal-IsValid : (now : ℕ) (l : CreditLedger) → IsWhole l → l.records ≢ [] → IsValid (seal p now l)
  unfolding seal
  seal-IsValid now l v n = record {
    chained = v.chained;
    batches = omega (arith, length_snoc l.signed_heads);
    numbered = IsNumbered-append 0 l.signed_heads _ v.numbered (omega arith);
    done = l.records;
    split = sym (append-nil l.records);
    head = IsSigned.signed n refl refl;
    room = λ h. h;
  }

  pub finalize_batch-seal :
      (now : ℕ) (l : CreditLedger) → l.current_batch ≢ [] → finalize_batch p now l ≡ seal p now l
  unfolding finalize_batch
  finalize_batch-seal now l n = ground arith

  IsValid-IsWhole : (l : CreditLedger) → IsValid l → IsWhole l
  IsValid-IsWhole l v = record {
    chained = v.chained;
    batches = v.batches;
    numbered = v.numbered;
    done = v.done;
    split = v.split;
    head = v.head;
  }

  -- A written record keeps the ledger valid, whether it fills the batch or not.
  pub append-IsValid :
      (content : Bytes) (now now' : ℕ) (l : CreditLedger)
      → IsValid l
      → IsValid (append p content now now' l).1
  unfolding append
  append-IsValid content now now' l v =
      let r = next_record p content now l in
      let pushed = push r l in
      let whole = push-IsWhole content now l v in
      let some_records = append-ne-nil l.records r in
      elim (Bool-cases (leb l.batch_size (length pushed.current_batch))) [
        | inl full ↦
            rw (full, finalize_batch-seal now' pushed (append-ne-nil l.current_batch r))
              (seal-IsValid now' pushed whole some_records)
        | inr more ↦ rw more (record {
          chained = whole.chained;
          batches = whole.batches;
          numbered = whole.numbered;
          done = whole.done;
          split = whole.split;
          head = whole.head;
          room = λ h. ground arith;
        })
      ]

  -- A forced end of the batch keeps the ledger valid, and leaves no record unsealed.
  pub force_finalize-IsValid :
      (now : ℕ) (l : CreditLedger)
      → IsValid l
      → IsValid (force_finalize p now l) × ((force_finalize p now l).current_batch ≡ [])
  unfolding force_finalize
  force_finalize-IsValid now l v = elim (nil-cases l.current_batch) [
    | inl e ↦
        let same : force_finalize p now l ≡ l = ground arith in
        subst (λ k. IsValid k × (k.current_batch ≡ [])) (sym same) (v, e)
    | inr n ↦
        let sealed : force_finalize p now l ≡ seal p now l =
          ground (arith, finalize_batch-seal now l n) in
        let some_records =
          λ (e : l.records ≡ []). n (append-eq-nil v.done l.current_batch (sym v.split ∙ e)) in
        subst (λ k. IsValid k × (k.current_batch ≡ [])) (sym sealed)
          (seal-IsValid now l (IsValid-IsWhole l v) some_records, unfold seal in refl)
  ]

  append_each-IsValid :
      (contents : List Bytes) (now now' : ℕ) (l : CreditLedger)
      → IsValid l
      → IsValid (append_each p contents now now' l).1
  unfolding append_each
  append_each-IsValid [] now now' l v = v
  append_each-IsValid (content ∷ rest) now now' l v =
      append_each-IsValid rest now now' (append p content now now' l).1
        (append-IsValid content now now' l v)

  -- A batch of records keeps the ledger valid, and leaves no record unsealed.
  pub append_batch-IsValid :
      (contents : List Bytes) (now now' : ℕ) (l : CreditLedger)
      → IsValid l
      → IsValid (append_batch p contents now now' l).1
        × ((append_batch p contents now now' l).1.current_batch ≡ [])
  unfolding append_batch
  append_batch-IsValid contents now now' l v =
      force_finalize-IsValid now' (append_each p contents now now' l).1
        (append_each-IsValid contents now now' l v)
