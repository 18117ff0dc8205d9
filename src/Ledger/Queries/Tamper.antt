-- ===== src/Ledger/Queries/Tamper.antt =====
-- What the chain of hashes says of records that were changed
-- (legacy/worker/src/daemon/credit_ledger.py, `verify_chain_integrity`).
use distrib_ai.Base.{
  ℕ, ◌<◌, ◌^◌, ◌≡◌, ◌≢◌, ◌⊎◌, inl, inr, refl, sym, ◌∙◌, true, List, [], ◌∷◌, ◌++◌, Option, some,
  length, arith, Bool-cases,
}
use distrib_ai.Ledger.Types.{Bytes, same_bytes, Platform, to_bytes, LedgerRecord}
use distrib_ai.Ledger.Chain.{record_bytes, compute_record_hash}
use distrib_ai.Ledger.Chain.Invariant.{end_hash}
use distrib_ai.Ledger.Queries.{check_links}
use distrib_ai.Ledger.Queries.Integrity.{same_bytes_iff}

to_bytes_injective : (n m : ℕ) → n < 2 ^ 64 → m < 2 ^ 64 → to_bytes 8 n ≡ to_bytes 8 m → n ≡ m
unfolding to_bytes
to_bytes_injective n m hn hm e = grind arith

length-to_bytes : (n m : ℕ) → length (to_bytes 8 n) ≡ length (to_bytes 8 m)
unfolding to_bytes
length-to_bytes n m = refl

split_same :
    (xs xs' ys ys' : Bytes)
    → length xs ≡ length xs'
    → xs ++ ys ≡ xs' ++ ys'
    → (xs ≡ xs') × (ys ≡ ys')
split_same [] [] ys ys' n e = (refl, e)
split_same [] (x' ∷ xs') ys ys' n e = absurd (omega (arith, n))
split_same (x ∷ xs) [] ys ys' n e = absurd (omega (arith, n))
split_same (x ∷ xs) (x' ∷ xs') ys ys' n e =
    let tails : xs ++ ys ≡ xs' ++ ys' = cc in
    let heads : x ≡ x' = cc in
    let rest = split_same xs xs' ys ys' (omega (arith, n)) tails in (cc, rest.1)

-- The two records have all their hashed fields in common, and their hashes.
pub record IsSameRecord (r s : LedgerRecord) : Type 0 where
  pub index : r.index ≡ s.index
  pub timestamp : r.timestamp ≡ s.timestamp
  pub data_bytes : r.data_bytes ≡ s.data_bytes
  pub prev_hash : r.prev_hash ≡ s.prev_hash
  pub hash : r.hash ≡ s.hash

abbrev pub IsSameChain : List LedgerRecord → List LedgerRecord → Type 0
IsSameChain [] [] = Unit
IsSameChain (r ∷ rs) (s ∷ ss) = IsSameRecord r s × IsSameChain rs ss
IsSameChain [] (s ∷ ss) = ⊥
IsSameChain (r ∷ rs) [] = ⊥

-- What Python can pack: an index and a length in 8 bytes, a time exactly in a double.
pub record IsPackable (r : LedgerRecord) : Type 0 where
  pub index : r.index < 2 ^ 64
  pub timestamp : r.timestamp < 2 ^ 53
  pub data_bytes : length r.data_bytes < 2 ^ 64

abbrev pub ArePackable : List LedgerRecord → Type 0
ArePackable [] = Unit
ArePackable (r ∷ rs) = IsPackable r × ArePackable rs

-- `struct.pack(">d", time)` gives 8 bytes, and different ones for different times below 2 ^ 53.
pub record PacksDouble (pack : ℕ → Bytes) : Type 0 where
  pub width : (t : ℕ) → length (pack t) ≡ 8
  pub injective : (t u : ℕ) → t < 2 ^ 53 → u < 2 ^ 53 → pack t ≡ pack u → t ≡ u

-- Two different byte strings with one digest.
abbrev pub Collision : (Bytes → Bytes) → Type 0
Collision digest = (x : Bytes) × (y : Bytes) × (x ≢ y) × (digest x ≡ digest y)

module _ (p : Platform) where
  -- The bytes that are hashed for a record determine its fields.
  record_bytes_injective :
      (i i' t t' : ℕ) (c c' h h' : Bytes)
      → PacksDouble p.pack_double
      → i < 2 ^ 64
      → i' < 2 ^ 64
      → t < 2 ^ 53
      → t' < 2 ^ 53
      → length c < 2 ^ 64
      → length c' < 2 ^ 64
      → record_bytes p i t c h ≡ record_bytes p i' t' c' h'
      → (i ≡ i') × (t ≡ t') × (c ≡ c') × (h ≡ h')
  unfolding record_bytes
  record_bytes_injective i i' t t' c c' h h' d hi hi' ht ht' hc hc' e =
      let (ei, e1) = split_same (to_bytes 8 i) (to_bytes 8 i') _ _ (length-to_bytes i i') e in
      let (et, e2) =
        split_same (p.pack_double t) (p.pack_double t') _ _ (d.width t ∙ sym (d.width t')) e1 in
      let (el, e3) =
        split_same (to_bytes 8 (length c)) (to_bytes 8 (length c')) _ _
          (length-to_bytes (length c) (length c')) e2 in
      let lengths = to_bytes_injective (length c) (length c') hc hc' el in
      let (ec, eh) = split_same c c' h h' lengths e3 in
      (to_bytes_injective i i' hi hi' ei, d.injective t t' ht ht' et, ec, eh)

  -- The hash that a record stores is that of its own fields.
  abbrev pub OwnHash : LedgerRecord → Type 0
  OwnHash r = r.hash ≡ compute_record_hash p r.index r.timestamp r.data_bytes r.prev_hash

  same_hash :
      (r s : LedgerRecord)
      → PacksDouble p.pack_double
      → IsPackable r
      → IsPackable s
      → OwnHash r
      → OwnHash s
      → r.hash ≡ s.hash
      → IsSameRecord r s ⊎ Collision p.sha256
  unfolding compute_record_hash
  same_hash r s d hr hs or os e =
      let x = record_bytes p r.index r.timestamp r.data_bytes r.prev_hash in
      let y = record_bytes p s.index s.timestamp s.data_bytes s.prev_hash in
      elim (Bool-cases (same_bytes x y)) [
        | inl same ↦
            let (ei, et, ec, eh) =
              record_bytes_injective r.index s.index r.timestamp s.timestamp r.data_bytes
                s.data_bytes r.prev_hash s.prev_hash d hr.index hs.index hr.timestamp hs.timestamp
                hr.data_bytes hs.data_bytes ((same_bytes_iff x y).0 same) in
            inl (record { index = ei; timestamp = et; data_bytes = ec; prev_hash = eh; hash = e })
        | inr other ↦ inr (x, y, (λ k. cc (other, (same_bytes_iff x y).1 k)), sym or ∙ e ∙ os)
      ]

  links_head :
      (before : Option Bytes) (r : LedgerRecord) (rs : List LedgerRecord)
      → check_links p before (r ∷ rs) ≡ true
      → OwnHash r × (check_links p (some r.hash) rs ≡ true)
  unfolding check_links
  links_head before r rs h = ground (
    arith,
    same_bytes_iff r.hash (compute_record_hash p r.index r.timestamp r.data_bytes r.prev_hash),
  )

  links_prev :
      (h : Bytes) (r : LedgerRecord) (rs : List LedgerRecord)
      → check_links p (some h) (r ∷ rs) ≡ true
      → r.prev_hash ≡ h
  unfolding check_links
  links_prev h r rs k = ground (arith, same_bytes_iff r.prev_hash h)

  -- Two chains of one length that both pass the loop of `verify_chain_integrity` and end with the same
  -- hash agree in index, time, data and hashes of every record, or two byte strings with the same
  -- digest are at hand. The indices and lengths fit in 8 bytes, and the times exactly in a double.
  pub tamper_evident :
      (before before' : Option Bytes) (r s : LedgerRecord) (rs ss : List LedgerRecord)
      → PacksDouble p.pack_double
      → ArePackable (r ∷ rs)
      → ArePackable (s ∷ ss)
      → length rs ≡ length ss
      → check_links p before (r ∷ rs) ≡ true
      → check_links p before' (s ∷ ss) ≡ true
      → end_hash r.hash rs ≡ end_hash s.hash ss
      → IsSameChain (r ∷ rs) (s ∷ ss) ⊎ Collision p.sha256
  tamper_evident b b' r s [] [] d hr hs n cr cs e =
      elim (same_hash r s d hr.0 hs.0 (links_head b r [] cr).0 (links_head b' s [] cs).0 e) [
        | inl same ↦ inl (same, tt)
        | inr found ↦ inr found
      ]
  tamper_evident b b' r s [] (s' ∷ ss) d hr hs n cr cs e = absurd (omega (arith, n))
  tamper_evident b b' r s (r' ∷ rs) [] d hr hs n cr cs e = absurd (omega (arith, n))
  tamper_evident b b' r s (r' ∷ rs) (s' ∷ ss) d hr hs n cr cs e =
      let (or, cr') = links_head b r (r' ∷ rs) cr in
      let (os, cs') = links_head b' s (s' ∷ ss) cs in
      elim (tamper_evident (some r.hash) (some s.hash) r' s' rs ss d hr.1 hs.1 (omega (arith, n))
        cr' cs' e) [
          | inr found ↦ inr found
          | inl same ↦
              let heads =
                sym (links_prev r.hash r' rs cr')
                ∙ same.0.prev_hash
                ∙ links_prev s.hash s' ss cs' in
              elim (same_hash r s d hr.0 hs.0 or os heads) [
                | inl one ↦ inl (one, same)
                | inr found ↦ inr found
              ]
        ]
