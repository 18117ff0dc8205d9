-- ===== src/Credits/Transfers/Mirror.antt =====
-- The database and the signed ledger after transfers
-- (legacy/services_python/credit_transfers.py with legacy/worker/src/daemon/credit_ledger.py).
use distrib_ai.Base.{
  ℕ, ◌==◌, ◌≡◌, ◌≢◌, ◌⊎◌, inl, inr, refl, sym, subst, ap, ◌∙◌, Bool, true, false, some,
  if◌then◌else◌, arith, returned,
}
use distrib_ai.Base.Int.{ℤ, pos, ◌+ℤ◌, ◌-ℤ◌, int_laws}
use distrib_ai.Ledger.Types.{Bytes, Platform, CreditLedger, object, transaction}
use distrib_ai.Ledger.Chain.{append_record, next_record}
use distrib_ai.Ledger.Queries.{get_balance}
use distrib_ai.Ledger.Queries.Balance.{append-records, balance_from-append}
use distrib_ai.Credits.Store.{transfer_out, transfer_in}
use distrib_ai.Credits.Transfers.{
  CreditTransfer, Persisted, done, refused, broken, CreditStore, Digests, Readings,
  CreditTransferManager, create_transfer, or_pooling,
}
use distrib_ai.Credits.Transfers.Sync.{
  Service, Answer, success, Fault, no_fault, raised_out, raised_in, interrupted, mirror_transfer,
  persist, create_and_persist, transfer_sync, validate_transfer_atomic,
}

-- The balance of a node after an amount went from one node to another.
abbrev pub shifted : ℕ → ℕ → ℤ → ℕ → ℤ → ℤ
shifted from to amount node b =
    b +ℤ (if from == node then pos 0 -ℤ amount else pos 0) +ℤ (if to == node then amount else pos 0)

-- The balance where only the debit was written.
abbrev pub debited : ℕ → ℤ → ℕ → ℤ → ℤ
debited from amount node b = b +ℤ (if from == node then pos 0 -ℤ amount else pos 0)

-- What a database promises: a transfer that is done has moved the amount, and one that is not has
-- left every balance alone.
pub record CreditStoreLaws {S : Type 0} (db : CreditStore S) : Type 0 where
  pub moves :
      (from to : ℕ) (amount : ℤ) (id memo node : ℕ) (s : S)
      → (db.transfer from to amount id memo s).0 ≡ done
      → node ≢ 0
      → db.get_balance node (db.transfer from to amount id memo s).1
        ≡ shifted from to amount node (db.get_balance node s)
  pub keeps :
      (from to : ℕ) (amount : ℤ) (id memo node : ℕ) (s : S)
      → (db.transfer from to amount id memo s).0 ≢ done
      → node ≢ 0
      → db.get_balance node (db.transfer from to amount id memo s).1 ≡ db.get_balance node s

-- `json` gives back what it wrote of a transaction.
abbrev pub LoadsTransactions : Platform → Type 0
LoadsTransactions p =
    (node type : ℕ) (amount : ℤ) (job time : ℕ) (metadata : Bytes)
    → p.loads (p.dumps (transaction node type amount job time metadata))
      ≡ object (record { contributor_id = some node; job_id = some job; amount = some amount })

Sum-cases : {A B : Type 0} → (x : A ⊎ B) → ((a : A) × (x ≡ inl a)) ⊎ ((b : B) × (x ≡ inr b))
Sum-cases (inl a) = inl (a, refl)
Sum-cases (inr b) = inr (b, refl)

plus_zero : (a : ℤ) → a ≡ a +ℤ pos 0
plus_zero a = omega int_laws

or_same : (t : Bool) (b a : ℤ) → (if t then b +ℤ a else b) ≡ b +ℤ (if t then a else pos 0)
or_same true b a = refl
or_same false b a = plus_zero b

module _ (p : Platform) (d : Digests) {S : Type 0} (db : CreditStore S) where
  -- Every node has the same balance in the database as in the signed ledger.
  abbrev pub Agrees : S → CreditLedger → Type 0
  Agrees s l = (node : ℕ) → node ≢ 0 → get_balance p node l ≡ returned (db.get_balance node s)

  pub append_record-balance :
      (node type : ℕ) (amount : ℤ) (metadata : Bytes) (job written now now' c : ℕ) (b : ℤ)
      (l : CreditLedger)
      → LoadsTransactions p
      → get_balance p c l ≡ returned b
      → get_balance p c (append_record p node type amount metadata job written now now' l).1
        ≡ returned (b +ℤ (if node == c then amount else pos 0))
  unfolding get_balance append_record
  append_record-balance node type amount metadata job written now now' c b l loads h =
      let content = p.dumps (transaction node type amount job written metadata) in
      rw (append-records p content now now' l) (
        balance_from-append p (pos 0) b c l.records (next_record p content now l) _ h
          (loads node type amount job written metadata)
        ∙ ap returned (or_same (node == c) b amount))

  interrupted-balance :
      (recorded : Bool) (node type : ℕ) (amount : ℤ) (metadata : Bytes) (written now c : ℕ) (b : ℤ)
      (l : CreditLedger)
      → LoadsTransactions p
      → get_balance p c l ≡ returned b
      → get_balance p c (interrupted p d db recorded node type amount metadata written now l)
        ≡ returned (if recorded then b +ℤ (if node == c then amount else pos 0) else b)
  unfolding interrupted get_balance
  interrupted-balance false node type amount metadata written now c b l loads h = h
  interrupted-balance true node type amount metadata written now c b l loads h =
      let content = p.dumps (transaction node type amount 0 written metadata) in
      balance_from-append p (pos 0) b c l.records (next_record p content now l) _ h
        (loads node type amount 0 written metadata)
      ∙ ap returned (or_same (node == c) b amount)

  -- The balance of a node in the ledger behind a mirror: all of the transfer, none of it, or the debit.
  abbrev pub mirrored_balance : Fault → CreditTransfer → ℕ → ℤ → ℤ
  mirrored_balance no_fault x c b = shifted x.from_node_id x.to_node_id x.amount c b
  mirrored_balance (raised_out false) x c b = b
  mirrored_balance (raised_out true) x c b = debited x.from_node_id x.amount c b
  mirrored_balance (raised_in false) x c b = debited x.from_node_id x.amount c b
  mirrored_balance (raised_in true) x c b = shifted x.from_node_id x.to_node_id x.amount c b

  debit-balance :
      (x : CreditTransfer) (t : Readings) (c : ℕ) (b : ℤ) (l : CreditLedger)
      → LoadsTransactions p
      → get_balance p c l ≡ returned b
      → get_balance p c
          (append_record p x.from_node_id transfer_out
            (pos 0 -ℤ x.amount)
            (d.metadata x x.to_node_id)
            0
            t.written_out
            t.appended_out
            t.sealed_out
            l).1
        ≡ returned (debited x.from_node_id x.amount c b)
  debit-balance x t c b l loads h =
      append_record-balance x.from_node_id transfer_out (pos 0 -ℤ x.amount)
        (d.metadata x x.to_node_id) 0 t.written_out t.appended_out t.sealed_out c b l loads h

  mirror_transfer-balance :
      (fault : Fault) (x : CreditTransfer) (t : Readings) (c : ℕ) (b : ℤ) (l : CreditLedger)
      → LoadsTransactions p
      → get_balance p c l ≡ returned b
      → get_balance p c (mirror_transfer p d db fault x t l).1
        ≡ returned (mirrored_balance fault x c b)
  unfolding mirror_transfer interrupted
  mirror_transfer-balance no_fault x t c b l loads h =
      append_record-balance x.to_node_id transfer_in x.amount (d.metadata x x.from_node_id) 0
        t.written_in t.appended_in t.sealed_in c _ _ loads (debit-balance x t c b l loads h)
  mirror_transfer-balance (raised_out false) x t c b l loads h = h
  mirror_transfer-balance (raised_out true) x t c b l loads h =
      interrupted-balance true x.from_node_id transfer_out (pos 0 -ℤ x.amount)
        (d.metadata x x.to_node_id) t.written_out t.appended_out c b l loads h
  mirror_transfer-balance (raised_in false) x t c b l loads h = debit-balance x t c b l loads h
  mirror_transfer-balance (raised_in true) x t c b l loads h =
      interrupted-balance true x.to_node_id transfer_in x.amount (d.metadata x x.from_node_id)
        t.written_in t.appended_in c _ _ loads (debit-balance x t c b l loads h)

  -- Both are there, and agree.
  pub record InStep (sv : Service S) : Type 0 where
    pub s : S
    pub l : CreditLedger
    pub stored : sv.store ≡ some s
    pub signed : sv.credit_ledger ≡ some l
    pub agree : Agrees s l

  -- The transfer is in the database, but the signed ledger raised: `ledger_mirrored` is false, and the
  -- ledger has nothing of the transfer, or the debit alone.
  pub record IsBehind (from to : ℕ) (amount : ℤ) (before : S) (fault : Fault)
      (r : Answer × Service S) : Type 0 where
    pub id : ℕ
    pub answered : r.0 ≡ success id amount from to false
    pub s : S
    pub l : CreditLedger
    pub stored : r.1.store ≡ some s
    pub signed : r.1.credit_ledger ≡ some l
    pub moved :
        (node : ℕ)
        → node ≢ 0
        → db.get_balance node s ≡ shifted from to amount node (db.get_balance node before)
    pub left :
        ((fault ≡ raised_out false)
          × ((node : ℕ) → node ≢ 0 → get_balance p node l ≡ returned (db.get_balance node before)))
        ⊎ (((fault ≡ raised_out true) ⊎ (fault ≡ raised_in false))
            × ((node : ℕ)
                → node ≢ 0
                → get_balance p node l
                  ≡ returned (debited from amount node (db.get_balance node before))))

  failed : (o : Persisted) → (o ≡ refused) ⊎ (o ≡ broken) → o ≢ done
  failed o h = ground arith

  Persisted-cases : (o : Persisted) → (o ≡ done) ⊎ ((o ≡ refused) ⊎ (o ≡ broken))
  Persisted-cases done = inl refl
  Persisted-cases refused = inr (inl refl)
  Persisted-cases broken = inr (inr refl)

  module _ (x : CreditTransfer) (t : Readings) (s : S) (l : CreditLedger) (sv : Service S)
      (loads : LoadsTransactions p) (laws : CreditStoreLaws db) (e : sv.credit_ledger ≡ some l)
      (h : Agrees s l) where
    abbrev kept_store : Persisted × S
    kept_store = db.transfer x.from_node_id x.to_node_id x.amount x.transfer_id x.reason s

    refused-InStep :
        (fault : Fault)
        → (kept_store.0 ≡ refused) ⊎ (kept_store.0 ≡ broken)
        → InStep (persist p d db fault x t s sv).1
    unfolding persist
    refused-InStep fault k =
        let kept : Agrees kept_store.1 l = λ node nz.
          h node nz
          ∙ ap returned (
              sym (
                laws.keeps x.from_node_id x.to_node_id x.amount x.transfer_id x.reason node s
                  (failed kept_store.0 k) nz)) in
        elim k [
          | inl k ↦
              rw (k, persist)
                (record { s = kept_store.1; l = l; stored = refl; signed = e; agree = kept })
          | inr k ↦
              rw (k, persist)
                (record { s = kept_store.1; l = l; stored = refl; signed = e; agree = kept })
        ]

    moves :
        (node : ℕ)
        → kept_store.0 ≡ done
        → node ≢ 0
        → db.get_balance node kept_store.1
          ≡ shifted x.from_node_id x.to_node_id x.amount node (db.get_balance node s)
    moves node k nz =
        laws.moves x.from_node_id x.to_node_id x.amount x.transfer_id x.reason node s k nz

    whole-InStep :
        (fault : Fault)
        → kept_store.0 ≡ done
        → ((c : ℕ) (b : ℤ)
            → mirrored_balance fault x c b ≡ shifted x.from_node_id x.to_node_id x.amount c b)
        → InStep (persist p d db fault x t s sv).1
    unfolding persist
    whole-InStep fault k w =
        rw (k, persist)
          (record {
            s = kept_store.1;
            l = (mirror_transfer p d db fault x t l).1;
            stored = refl;
            signed = rw e refl;
            agree = λ node nz.
                mirror_transfer-balance fault x t node (db.get_balance node s) l loads (h node nz)
                ∙ ap returned (w node (db.get_balance node s) ∙ sym (moves node k nz));
          })

    part-IsBehind :
        (fault : Fault)
        → kept_store.0 ≡ done
        → (mirror_transfer p d db fault x t l).0 ≡ false
        → ((fault ≡ raised_out false) × ((c : ℕ) (b : ℤ) → mirrored_balance fault x c b ≡ b))
          ⊎ (((fault ≡ raised_out true) ⊎ (fault ≡ raised_in false))
              × ((c : ℕ) (b : ℤ)
                  → mirrored_balance fault x c b ≡ debited x.from_node_id x.amount c b))
        → IsBehind x.from_node_id x.to_node_id x.amount s fault (persist p d db fault x t s sv)
    unfolding persist
    part-IsBehind fault k m w =
        let balance = λ (node : ℕ) (nz : node ≢ 0).
          mirror_transfer-balance fault x t node (db.get_balance node s) l loads (h node nz) in
        rw (k, persist)
          (record {
            id = x.transfer_id;
            answered = rw e (rw m refl);
            s = kept_store.1;
            l = (mirror_transfer p d db fault x t l).1;
            stored = refl;
            signed = rw e refl;
            moved = λ node nz. moves node k nz;
            left = elim w [
              | inl (f, w) ↦
                  inl (f, λ node nz. balance node nz ∙ ap returned (w node (db.get_balance node s)))
              | inr (f, w) ↦
                  inr (f, λ node nz. balance node nz ∙ ap returned (w node (db.get_balance node s)))
            ];
          })

    done-InStep :
        (fault : Fault)
        → kept_store.0 ≡ done
        → InStep (persist p d db fault x t s sv).1
          ⊎ IsBehind x.from_node_id x.to_node_id x.amount s fault (persist p d db fault x t s sv)
    done-InStep no_fault k = inl (whole-InStep no_fault k (λ c b. refl))
    done-InStep (raised_in true) k = inl (whole-InStep (raised_in true) k (λ c b. refl))
    done-InStep (raised_in false) k = inr (
        part-IsBehind (raised_in false) k (unfold mirror_transfer in refl)
          (inr (inr refl, λ c b. refl)))
    done-InStep (raised_out true) k = inr (
        part-IsBehind (raised_out true) k (unfold mirror_transfer in refl)
          (inr (inl refl, λ c b. refl)))
    done-InStep (raised_out false) k = inr (
        part-IsBehind (raised_out false) k (unfold mirror_transfer in refl)
          (inl (refl, λ c b. refl)))

    persist-InStep :
        (fault : Fault)
        → InStep (persist p d db fault x t s sv).1
          ⊎ IsBehind x.from_node_id x.to_node_id x.amount s fault (persist p d db fault x t s sv)
    persist-InStep fault = elim (Persisted-cases kept_store.0) [
      | inr k ↦ inl (refused-InStep fault k)
      | inl k ↦ done-InStep fault k
    ]

  created_lem :
      (from to : ℕ) (amount : ℤ) (memo : ℕ) (b : ℤ) (t : Readings) (m : CreditTransferManager)
      (x : CreditTransfer)
      → (create_transfer d from to amount memo b t m).0 ≡ inr x
      → (x.from_node_id ≡ from) × (x.to_node_id ≡ to) × (x.amount ≡ amount)
  unfolding create_transfer
  created_lem from to amount memo b t m x h = ground (arith, h)

  IsBehind-same :
      (from from' to to' : ℕ) (amount amount' : ℤ) (s : S) (fault : Fault) (r : Answer × Service S)
      → (from' ≡ from) × (to' ≡ to) × (amount' ≡ amount)
      → InStep r.1 ⊎ IsBehind from' to' amount' s fault r
      → InStep r.1 ⊎ IsBehind from to amount s fault r
  IsBehind-same from from' to to' amount amount' s fault r (a, b, c) h =
      subst (λ i. InStep r.1 ⊎ IsBehind i to amount s fault r) a
        (subst (λ i. InStep r.1 ⊎ IsBehind from' i amount s fault r) b
          (subst (λ i. InStep r.1 ⊎ IsBehind from' to' i s fault r) c h))

  create_and_persist-InStep :
      (fault : Fault) (from to : ℕ) (amount : ℤ) (memo : ℕ) (t : Readings) (b : ℤ) (s : S)
      (l : CreditLedger) (sv : Service S)
      → LoadsTransactions p
      → CreditStoreLaws db
      → sv.store ≡ some s
      → sv.credit_ledger ≡ some l
      → Agrees s l
      → InStep (create_and_persist p d db fault from to amount memo t b s sv).1
        ⊎ IsBehind from to amount s fault
            (create_and_persist p d db fault from to amount memo t b s sv)
  unfolding create_and_persist
  create_and_persist-InStep fault from to amount memo t b s l sv loads laws f e h =
      let created = create_transfer d from to amount (or_pooling d memo) b t sv.manager in
      elim (Sum-cases created.0) [
        | inl (r, k) ↦
            rw (k, create_and_persist)
              (inl (record { s = s; l = l; stored = f; signed = e; agree = h }))
        | inr (x, k) ↦
            rw (k, create_and_persist)
              (IsBehind-same from x.from_node_id to x.to_node_id amount x.amount s fault _
                (created_lem from to amount (or_pooling d memo) b t sv.manager x k)
                (persist-InStep x t s l (record sv { manager = created.1 }) loads laws e h fault))
      ]

  -- `transfer_sync` on a database and a signed ledger in which every node has the same balance. Behind
  -- the call the two are still in step, or the signed ledger raised while the transfer was mirrored:
  -- then the database has moved the amount, the answer says success with `ledger_mirrored` false, and
  -- the ledger has the old balances (the debit raised before its record) or the debit alone (behind its
  -- record, or in the credit before its record). The database moves the amount of a transfer that it
  -- reports done and no other, and `json` gives back the transactions it wrote.
  pub transfer_sync-InStep :
      (fault : Fault) (from to : ℕ) (amount : ℤ) (memo : ℕ) (t : Readings) (sv : Service S)
      → LoadsTransactions p
      → CreditStoreLaws db
      → (i : InStep sv)
      → InStep (transfer_sync p d db fault from to amount memo t sv).1
        ⊎ IsBehind from to amount i.s fault (transfer_sync p d db fault from to amount memo t sv)
  unfolding transfer_sync
  transfer_sync-InStep fault from to amount memo t sv loads laws i =
      let valid = validate_transfer_atomic p d db from to amount i.s t.checked sv.manager in
      elim (Sum-cases valid.0) [
        | inl (r, k) ↦
            rw (i.stored, k, transfer_sync)
              (inl (record {
                s = i.s;
                l = i.l;
                stored = i.stored;
                signed = i.signed;
                agree = i.agree;
              }))
        | inr (b, k) ↦
            rw (i.stored, k, transfer_sync)
              (create_and_persist-InStep fault from to amount memo t b i.s i.l
                (record sv { manager = valid.1 }) loads laws i.stored i.signed i.agree)
      ]
