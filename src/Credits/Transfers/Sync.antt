-- ===== src/Credits/Transfers/Sync.antt =====
-- `_transfer_sync` (legacy/services_python/credit_transfers.py): validation, the transfer's record,
-- the database, the signed ledger, and the confirmation or the rollback.
use distrib_ai.Base.{ℕ, ◌⊎◌, inl, inr, Bool, true, false, Option, none, some, if◌then◌else◌}
use distrib_ai.Base.Int.{ℤ, pos, ◌-ℤ◌, ltb_ℤ}
use distrib_ai.Ledger.Types.{Bytes, Platform, CreditLedger, transaction}
use distrib_ai.Ledger.Chain.{append_record, next_record, push}
use distrib_ai.Credits.Store.{transfer_out, transfer_in}
use distrib_ai.Credits.Transfers.{
  CreditTransfer, done, refused, broken, CreditStore, Refusal, insufficient, CreditTransferManager,
  Digests, Readings, or_pooling, validate_transfer, create_transfer, confirm_transfer,
  rollback_transfer_record,
}

-- The manager with its database and its signed ledger, of which either may be missing.
pub record Service (S : Type 0) : Type 0 where
  pub manager : CreditTransferManager
  pub store : Option S
  pub credit_ledger : Option CreditLedger

pub data Answer : Type 0 where
  success : (transfer_id : ℕ) (amount : ℤ) (from to : ℕ) (ledger_mirrored : Bool) → Answer
  unavailable persist_refused persist_failed : Answer
  invalid : Refusal → Answer

-- Whether the signed ledger raises in `_mirror_transfer_to_signed_ledger`: in the debit or in the
-- credit, before the record is written, or behind it, where a batch would end.
pub data Fault : Type 0 where
  no_fault : Fault
  raised_out raised_in : (recorded : Bool) → Fault

module _ (p : Platform) (d : Digests) {S : Type 0} (db : CreditStore S) where
  -- What an `append_record` that raises leaves.
  unfoldable pub interrupted : Bool → ℕ → ℕ → ℤ → Bytes → ℕ → ℕ → CreditLedger → CreditLedger
  interrupted recorded node type amount metadata written now l =
      if recorded
      then push (next_record p (p.dumps (transaction node type amount 0 written metadata)) now l) l
      else l

  -- `_mirror_transfer_to_signed_ledger` in its `try`: `ledger_mirrored`, and the ledger.
  unfoldable pub mirror_transfer :
      Fault → CreditTransfer → Readings → CreditLedger → Bool × CreditLedger
  mirror_transfer fault x t l =
      let out = d.metadata x x.to_node_id in
      let in' = d.metadata x x.from_node_id in
      let debit = pos 0 -ℤ x.amount in
      let (i, l') =
        append_record p x.from_node_id transfer_out debit out 0 t.written_out t.appended_out
          t.sealed_out l in
      let (j, l'') =
        append_record p x.to_node_id transfer_in x.amount in' 0 t.written_in t.appended_in
          t.sealed_in l' in
      elim fault [
        | no_fault ↦ (true, l'')
        | raised_out recorded ↦ (
          false,
          interrupted recorded x.from_node_id transfer_out debit out t.written_out t.appended_out l,
        )
        | raised_in recorded ↦ (
          false,
          interrupted recorded x.to_node_id transfer_in x.amount in' t.written_in t.appended_in l',
        )
      ]

  -- `validate_transfer_atomic` with a database: the refusal, or the balance.
  unfoldable pub validate_transfer_atomic :
      ℕ → ℕ → ℤ → S → ℕ → CreditTransferManager → (Refusal ⊎ ℤ) × CreditTransferManager
  validate_transfer_atomic from to amount s now m =
      let (error, m') = validate_transfer from to amount none now m in
      let balance = db.get_balance from s in
      (
        elim error [
          | some e ↦ inl e
          | none ↦ if ltb_ℤ balance amount then inl insufficient else inr balance
        ],
        m',
      )

  -- What follows `create_transfer`. The transfer is confirmed also where the mirror raised.
  unfoldable pub persist : Fault → CreditTransfer → Readings → S → Service S → Answer × Service S
  persist fault x t s sv =
      let (persisted, s') =
        db.transfer x.from_node_id x.to_node_id x.amount x.transfer_id x.reason s in
      let rolled_back : Service S = record sv {
        manager = rollback_transfer_record x sv.manager;
        store = some s';
      } in
      elim persisted [
        | refused ↦ (persist_refused, rolled_back)
        | broken ↦ (persist_failed, rolled_back)
        | done ↦ (
          success x.transfer_id x.amount x.from_node_id x.to_node_id
              (elim sv.credit_ledger [ none ↦ false | some l ↦ (mirror_transfer fault x t l).0 ]),
          record {
            manager = (confirm_transfer x.transfer_id sv.manager).1;
            store = some s';
            credit_ledger = elim sv.credit_ledger [
              | none ↦ none
              | some l ↦ some (mirror_transfer fault x t l).1
            ];
          },
        )
      ]

  -- `create_transfer` with the balance that was read, and the rest.
  unfoldable pub create_and_persist :
      Fault → ℕ → ℕ → ℤ → ℕ → Readings → ℤ → S → Service S → Answer × Service S
  create_and_persist fault from to amount memo t balance s sv =
      let (created, m) =
        create_transfer d from to amount (or_pooling d memo) balance t sv.manager in
      elim created [
        | inl e ↦ (invalid e, record sv { manager = m })
        | inr x ↦ persist fault x t s (record sv { manager = m })
      ]

  -- The memo is without surrounding blanks.
  unfoldable pub transfer_sync : Fault → ℕ → ℕ → ℤ → ℕ → Readings → Service S → Answer × Service S
  transfer_sync fault from to amount memo t sv = elim sv.store [
    | none ↦ (unavailable, sv)
    | some s ↦
        (let (valid, m) = validate_transfer_atomic from to amount s t.checked sv.manager in
          elim valid [
            | inl e ↦ (invalid e, record sv { manager = m })
            | inr balance ↦
                create_and_persist fault from to amount memo t balance s (record sv { manager = m })
          ])
  ]
