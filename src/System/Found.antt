-- ===== src/System/Found.antt =====
-- What the jobs of the whole system find.
use crypto_pay_system.Prelude.{
  ℕ, ◌≡◌, ◌≢◌, subst, Bool, List, [], ◌∷◌, ◌++◌, inl, inr, All, none, arith,
}
use crypto_pay_system.Prelude.Exec.{ok}
use crypto_pay_system.Prelude.Rows.{select, scalar_one_or_none-none}
use crypto_pay_system.Prelude.Text.{Text}
use crypto_pay_system.Models.{Invoice, Settings}
use crypto_pay_system.Ledger.Queue.{LedgerJob}
use crypto_pay_system.Ledger.Queue.Names.{OfJob}
use crypto_pay_system.Ledger.Processor.{load_invoice}
use crypto_pay_system.Ledger.Processor.Once.{is_invoice}
use crypto_pay_system.Watcher.Decoder.{Bytes}
use crypto_pay_system.System.{System, db_of, Reach}
use crypto_pay_system.System.Traces.{All-remove, IsKnown, IsTraced, Reach-IsTraced}

known_found :
    (rows : List Invoice) (id : ℕ) (a : Text) (m : ℕ)
    → IsKnown rows id a m
    → select (is_invoice id) rows ≢ []
unfolding select
known_found [] id a m h = absurd h
known_found (i ∷ rows) id a m (inl (same_id, same_a, same_m)) = λ e. ground arith
known_found (i ∷ rows) id a m (inr h) =
    let later = known_found rows id a m h in λ e. ground (arith, later)

module _ {settings : Settings} {hash256 : Bytes → Bytes} {testnet : Bool}
    {strip : Text → Text} where
  -- Where the jobs and the cache of the start name invoices of the table, a job of the ledger
  -- service finds its invoice in every state that the system reaches: the branch of `process` for
  -- an unknown invoice is never taken.
  pub running_found :
      {s t : System} (before : List LedgerJob) (job : LedgerJob) (after : List LedgerJob)
      → IsTraced s
      → Reach settings hash256 testnet strip s t
      → t.ledger.running ≡ before ++ job ∷ after
      → (load_invoice job.invoice_id (db_of t)).0 ≢ ok none
  unfolding load_invoice
  running_found {s} {t} before job after start reach e =
      let (hc, (hq, hw, hr)) = Reach-IsTraced reach start in
      let rows = (db_of t).invoices in
      let known =
        All-remove (OfJob (IsKnown rows)) before job after
          (subst (All (OfJob (IsKnown rows))) e hr) in
      let found = known_found rows job.invoice_id job.address job.merchant_id known.0 in
      λ missing. found (scalar_one_or_none-none (select (is_invoice job.invoice_id) rows) missing)
