-- ===== src/Ledger/Chain/Heads.antt =====
-- What the signed heads say of the records (legacy/worker/src/daemon/credit_ledger.py).
use distrib_ai.Base.{
  ℕ, ◌+◌, ◌≡◌, ◌≢◌, inl, inr, refl, sym, ap, ◌∙◌, subst, Option, none, some, List, [], ◌∷◌, ◌++◌,
  length, leb, arith, Bool-cases, All, append-nil, append_assoc, get_last?,
}
use distrib_ai.Ledger.Types.{Bytes, Platform, LedgerRecord, SignedHead, CreditLedger}
use distrib_ai.Ledger.Merkle
use distrib_ai.Ledger.Chain.{
  new_ledger, hashes, sign_root_hash, seal, force_finalize, next_record, push, append, append_batch,
  append_each,
}
use distrib_ai.Ledger.Chain.Invariant.{
  IsValid, append-IsValid, length_snoc, nil-cases, append-eq-nil, append-ne-nil,
  finalize_batch-seal,
}

get_last-snoc : {A : Type 0} (xs : List A) (x : A) → get_last? (xs ++ x ∷ []) ≡ some x
get_last-snoc [] x = refl
get_last-snoc (y ∷ []) x = refl
get_last-snoc (y ∷ (z ∷ zs)) x = get_last-snoc (z ∷ zs) x

All-snoc :
    {A : Type 0} (P : A → Type 0) (xs : List A) (x : A) → All P xs → P x → All P (xs ++ x ∷ [])
All-snoc P [] x h k = (k, tt)
All-snoc P (y ∷ ys) x h k = (h.0, All-snoc P ys x h.1 k)

-- The last head is that of the ledger, and seals all but the current batch.
abbrev pub IsLast : Option SignedHead → CreditLedger → Type 0
IsLast none l = (l.root_hash ≡ []) × (l.signature ≡ []) × (l.records ≡ l.current_batch)
IsLast (some h) l =
    (h.root_hash ≡ l.root_hash)
    × (h.signature ≡ l.signature)
    × (h.size + length l.current_batch ≡ length l.records)

module _ (p : Platform) where
  -- The head stands for the first records, up to its size: their Merkle root, signed with the key.
  pub record Attests (key : Bytes) (rs : List LedgerRecord) (h : SignedHead) : Type 0 where
    pub sealed : List LedgerRecord
    pub later : List LedgerRecord
    pub split : rs ≡ sealed ++ later
    pub nonempty : sealed ≢ []
    pub sized : h.size ≡ length sealed
    pub rooted : h.root_hash ≡ Merkle.root_hash p (hashes sealed)
    pub signed : h.signature ≡ sign_root_hash p key h.root_hash

  pub record IsAttested (l : CreditLedger) : Type 0 where
    pub heads : All (Attests l.signing_key l.records) l.signed_heads
    pub last : IsLast (get_last? l.signed_heads) l

  pub new_ledger-IsAttested :
      (key : Bytes) (batch_size : ℕ) → IsAttested (new_ledger key batch_size)
  new_ledger-IsAttested key n = record { heads = tt; last = (refl, refl, refl) }

  later-All :
      (key : Bytes) (rs : List LedgerRecord) (r : LedgerRecord) (hs : List SignedHead)
      → All (Attests key rs) hs
      → All (Attests key (rs ++ r ∷ [])) hs
  later-All key rs r [] a = tt
  later-All key rs r (h ∷ hs) (a, rest) = (
    record {
      sealed = a.sealed;
      later = a.later ++ r ∷ [];
      split = ap (λ xs. xs ++ r ∷ []) a.split ∙ append_assoc a.sealed a.later (r ∷ []);
      nonempty = a.nonempty;
      sized = a.sized;
      rooted = a.rooted;
      signed = a.signed;
    },
    later-All key rs r hs rest,
  )

  push-IsLast :
      (o : Option SignedHead) (r : LedgerRecord) (l : CreditLedger)
      → IsLast o l
      → IsLast o (push r l)
  push-IsLast none r l (a, b, c) = (a, b, ap (λ xs. xs ++ r ∷ []) c)
  push-IsLast (some h) r l (a, b, c) =
      (a, b, omega (arith, c, length_snoc l.current_batch r, length_snoc l.records r))

  push-IsAttested : (r : LedgerRecord) (l : CreditLedger) → IsAttested l → IsAttested (push r l)
  push-IsAttested r l a = record {
    heads = later-All l.signing_key l.records r l.signed_heads a.heads;
    last = push-IsLast (get_last? l.signed_heads) r l a.last;
  }

  seal-IsAttested :
      (now : ℕ) (l : CreditLedger) → IsAttested l → l.records ≢ [] → IsAttested (seal p now l)
  unfolding seal
  seal-IsAttested now l a n =
      let root = Merkle.root_hash p (hashes l.records) in
      let head : SignedHead = record {
        root_hash = root;
        signature = sign_root_hash p l.signing_key root;
        timestamp = now;
        size = length l.records;
        batch_index = l.batch_index;
      } in
      record {
        heads = All-snoc (Attests l.signing_key l.records) l.signed_heads head a.heads (record {
          sealed = l.records;
          later = [];
          split = sym (append-nil l.records);
          nonempty = n;
          sized = refl;
          rooted = refl;
          signed = refl;
        });
        last =
            subst (λ o. IsLast o (seal p now l)) (sym (get_last-snoc l.signed_heads head))
              (refl, refl, omega arith);
      }

  pub append-IsAttested :
      (content : Bytes) (now now' : ℕ) (l : CreditLedger)
      → IsAttested l
      → IsAttested (append p content now now' l).1
  unfolding append
  append-IsAttested content now now' l a =
      let r = next_record p content now l in
      let pushed = push r l in
      let kept = push-IsAttested r l a in
      elim (Bool-cases (leb l.batch_size (length pushed.current_batch))) [
        | inl full ↦
            rw (full, finalize_batch-seal p now' pushed (append-ne-nil l.current_batch r))
              (seal-IsAttested now' pushed kept (append-ne-nil l.records r))
        | inr more ↦ rw more kept
      ]

  pub force_finalize-IsAttested :
      (now : ℕ) (l : CreditLedger)
      → IsValid p l
      → IsAttested l
      → IsAttested (force_finalize p now l)
  unfolding force_finalize
  force_finalize-IsAttested now l v a = elim (nil-cases l.current_batch) [
    | inl e ↦ let same : force_finalize p now l ≡ l = ground arith in subst IsAttested (sym same) a
    | inr n ↦
        let sealed : force_finalize p now l ≡ seal p now l =
          ground (arith, finalize_batch-seal p now l n) in
        let some_records =
          λ (e : l.records ≡ []). n (append-eq-nil v.done l.current_batch (sym v.split ∙ e)) in
        subst IsAttested (sym sealed) (seal-IsAttested now l a some_records)
  ]

  each-Attested :
      (contents : List Bytes) (now now' : ℕ) (l : CreditLedger)
      → IsValid p l
      → IsAttested l
      → IsValid p (append_each p contents now now' l).1
        × IsAttested (append_each p contents now now' l).1
  unfolding append_each
  each-Attested [] now now' l v a = (v, a)
  each-Attested (content ∷ rest) now now' l v a =
      each-Attested rest now now' (append p content now now' l).1
        (append-IsValid p content now now' l v) (append-IsAttested content now now' l a)

  pub append_batch-IsAttested :
      (contents : List Bytes) (now now' : ℕ) (l : CreditLedger)
      → IsValid p l
      → IsAttested l
      → IsAttested (append_batch p contents now now' l).1
  unfolding append_batch
  append_batch-IsAttested contents now now' l v a =
      let (v', a') = each-Attested contents now now' l v a in
      force_finalize-IsAttested now' (append_each p contents now now' l).1 v' a'
