-- ===== src/Ledger/Writes.antt =====
-- Runs of writes to a ledger (legacy/worker/src/daemon/credit_ledger.py).
use distrib_ai.Base.{ℕ, List, [], ◌∷◌}
use distrib_ai.Ledger.Types.{Bytes, Platform, CreditLedger}
use distrib_ai.Ledger.Chain
use distrib_ai.Ledger.Chain.{new_ledger}
use distrib_ai.Ledger.Chain.Heads.{
  IsAttested, append-IsAttested, append_batch-IsAttested, force_finalize-IsAttested,
}
use distrib_ai.Ledger.Chain.Invariant.{
  IsValid, append-IsValid, append_batch-IsValid, force_finalize-IsValid,
}

-- A call that writes, with what it reads of the clock.
pub data Write : Type 0 where
  append : (content : Bytes) (now now' : ℕ) → Write
  append_batch : (contents : List Bytes) (now now' : ℕ) → Write
  force_finalize : (now : ℕ) → Write

module _ (p : Platform) where
  unfoldable pub write : Write → CreditLedger → CreditLedger
  write (append content now now') l = (Chain.append p content now now' l).1
  write (append_batch contents now now') l = (Chain.append_batch p contents now now' l).1
  write (force_finalize now) l = Chain.force_finalize p now l

  unfoldable pub write_all : List Write → CreditLedger → CreditLedger
  unfolding write
  write_all [] l = l
  write_all (w ∷ ws) l = write_all ws (write w l)

  write-IsValid : (w : Write) (l : CreditLedger) → IsValid p l → IsValid p (write w l)
  unfolding write
  write-IsValid (append content now now') l v = append-IsValid p content now now' l v
  write-IsValid (append_batch contents now now') l v =
      (append_batch-IsValid p contents now now' l v).0
  write-IsValid (force_finalize now) l v = (force_finalize-IsValid p now l v).0

  write-IsAttested :
      (w : Write) (l : CreditLedger) → IsValid p l → IsAttested p l → IsAttested p (write w l)
  unfolding write
  write-IsAttested (append content now now') l v a = append-IsAttested p content now now' l a
  write-IsAttested (append_batch contents now now') l v a =
      append_batch-IsAttested p contents now now' l v a
  write-IsAttested (force_finalize now) l v a = force_finalize-IsAttested p now l v a

  -- Writes of any kind and number keep a valid and attested ledger so. Its records are a chain of hashes
  -- from the first on; its heads are numbered by batches, and each signs the Merkle root of as many of
  -- the first records as its size says, one at least; the last head has the root and the signature of
  -- the ledger, and seals all records but those of the current batch, which is not full; without a
  -- head there is no root, and all records are of the current batch.
  pub write_all-IsValid :
      (ws : List Write) (l : CreditLedger)
      → IsValid p l
      → IsAttested p l
      → IsValid p (write_all ws l) × IsAttested p (write_all ws l)
  unfolding write_all
  write_all-IsValid [] l v a = (v, a)
  write_all-IsValid (w ∷ ws) l v a =
      write_all-IsValid ws (write w l) (write-IsValid w l v) (write-IsAttested w l v a)
