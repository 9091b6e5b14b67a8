-- ===== src/System/Traces.antt =====
-- The invoices that the jobs and the cache of the whole system name.
use crypto_pay_system.Prelude.{
  ℕ, ◌≡◌, refl, sym, subst, ◌∙◌, Bool, List, [], ◌∷◌, ◌++◌, ◌⊎◌, inl, inr, All, All-map,
}
use crypto_pay_system.Prelude.Text.{Text}
use crypto_pay_system.Models.{Invoice, Settings}
use crypto_pay_system.Ledger.Queue.Names.{
  OfJob, OfPayload, OfQueues, pop-OfQueues, promote-OfQueues, push_retry-OfQueues,
}
use crypto_pay_system.Ledger.Processor.Late.Keeps.{late_queues}
use crypto_pay_system.Ledger.Processor.Retries.{process_queues}
use crypto_pay_system.Ledger.Service.{
  LedgerService, Work, consume, start, finish, finish_late, promote, promoted,
}
use crypto_pay_system.Payout.Service.Sound.{All-add}
use crypto_pay_system.Watcher.Decoder.{Bytes}
use crypto_pay_system.Watcher.Matching.Names.{OfCache, OfEntry, refresh-OfCache}
use crypto_pay_system.Watcher.Service.Names.{listen_tx-OfQueues, listen_block-OfCache}
use crypto_pay_system.System.{
  System, db_of, Step, ledger_round, tx_message, block_message, refresh_round, open_invoice,
  payout_step, watcher_restart, ledger_restart, Reach, here, next,
}
use crypto_pay_system.Ledger.Processor.Late.Rows.{Grows}
use crypto_pay_system.System.Invoices.{Step-Grows}

pub All-remove :
    {A : Type 0} (P : A → Type 0) (before : List A) (a : A) (after : List A)
    → All P (before ++ a ∷ after)
    → P a × All P (before ++ after)
All-remove P [] a after h = h
All-remove P (b ∷ before) a after h =
    let (here_a, rest) = All-remove P before a after h.1 in (here_a, (h.0, rest))

module _ (P : ℕ → Text → ℕ → Type 0) where
  abbrev OfService : LedgerService → Type 0
  OfService s = OfQueues P s.world.queues × All (OfJob P) s.waiting × All (OfJob P) s.running

  -- The rounds of the ledger service make no new names.
  round-OfService :
      {settings : Settings} {s t : LedgerService} → Work settings s t → OfService s → OfService t
  unfolding promoted
  round-OfService (consume s job q e) (hq, hw, hr) =
      let (h, rest) = pop-OfQueues P s.world.queues hq e in
      (rest, All-add (OfJob P) s.waiting job hw h, hr)
  round-OfService (start s job rest e free) (hq, hw, hr) =
      let h = subst (All (OfJob P)) e hw in (hq, h.1, All-add (OfJob P) s.running job hr h.0)
  round-OfService (finish s env before job after same e) (hq, hw, hr) =
      let (h, rest) = All-remove (OfJob P) before job after (subst (All (OfJob P)) e hr) in
      elim (process_queues env job s.world) [
        | inl kept ↦ (subst (OfQueues P) (sym kept) hq, hw, rest)
        | inr (n, more, few) ↦ (
          subst (OfQueues P) (sym more) (
              push_retry-OfQueues P env.settings env.fresh.now (record job { confirmations = n })
                s.world.queues h hq),
          hw,
          rest,
        )
      ]
  round-OfService (finish_late s env before job after commit old same e) (hq, hw, hr) =
      let (h, rest) = All-remove (OfJob P) before job after (subst (All (OfJob P)) e hr) in
      elim (late_queues commit env job old s.world) [
        | inl kept ↦ (subst (OfQueues P) (sym kept) hq, hw, rest)
        | inr (n, more, few) ↦ (
          subst (OfQueues P) (sym more) (
              push_retry-OfQueues P env.settings env.fresh.now (record job { confirmations = n })
                s.world.queues h hq),
          hw,
          rest,
        )
      ]
  round-OfService (promote s now some_due) (hq, hw, hr) =
      (promote-OfQueues P now s.world.queues hq, hw, hr)

-- the table has an invoice with this id, this address and this merchant
abbrev pub IsKnown : List Invoice → ℕ → Text → ℕ → Type 0
IsKnown [] id a m = ⊥
IsKnown (i ∷ rows) id a m =
    ((i.id ≡ id) × (i.address ≡ a) × (i.merchant_id ≡ m)) ⊎ IsKnown rows id a m

Grows-IsKnown :
    (rows later : List Invoice) (id : ℕ) (a : Text) (m : ℕ)
    → Grows rows later
    → IsKnown rows id a m
    → IsKnown later id a m
Grows-IsKnown [] later id a m g h = absurd h
Grows-IsKnown (i ∷ rows) [] id a m g h = absurd g
Grows-IsKnown (i ∷ rows) (j ∷ later) id a m g (inl (same_id, same_a, same_m)) =
    inl (g.0.id ∙ same_id, g.0.address ∙ same_a, g.0.merchant_id ∙ same_m)
Grows-IsKnown (i ∷ rows) (j ∷ later) id a m g (inr h) = inr (Grows-IsKnown rows later id a m g.1 h)

own-IsKnown : (rows : List Invoice) → All (λ i. IsKnown rows i.id i.address i.merchant_id) rows
own-IsKnown [] = tt
own-IsKnown (i ∷ rows) = (
  inl (refl, refl, refl),
  All-map _ (λ j. IsKnown (i ∷ rows) j.id j.address j.merchant_id) rows (λ j h. inr h)
      (own-IsKnown rows),
)

-- Every job on the queues and in the tasks of the ledger service, and every entry of the cache,
-- names an invoice of the table, its address and its merchant.
abbrev pub IsTraced : System → Type 0
IsTraced s =
    let known = IsKnown (db_of s).invoices in OfCache known s.cache × OfService known s.ledger

-- with the rows of `later` in place of those of the table
abbrev Traces : List Invoice → System → Type 0
Traces rows s = OfCache (IsKnown rows) s.cache × OfService (IsKnown rows) s.ledger

Traces-Grows :
    (rows later : List Invoice) (s : System) → Grows rows later → Traces rows s → Traces later s
Traces-Grows rows later s g (hc, ((hh, ht), hw, hr)) =
    let more = λ (id : ℕ) (a : Text) (m : ℕ) (h : IsKnown rows id a m).
      Grows-IsKnown rows later id a m g h in
    (
      All-map _ (OfEntry (IsKnown later)) s.cache (λ e. more e.1.invoice_id e.0 e.1.merchant_id) hc,
      (
        (
          All-map _ (OfPayload (IsKnown later)) s.ledger.world.queues.hot
              (λ p. more p.invoice_id p.address p.merchant_id) hh,
          All-map _ (λ e. OfPayload (IsKnown later) e.0) s.ledger.world.queues.retry
              (λ e. more e.0.invoice_id e.0.address e.0.merchant_id) ht,
        ),
        All-map _ (OfJob (IsKnown later)) s.ledger.waiting
            (λ j. more j.invoice_id j.address j.merchant_id) hw,
        All-map _ (OfJob (IsKnown later)) s.ledger.running
            (λ j. more j.invoice_id j.address j.merchant_id) hr,
      ),
    )

module _ {settings : Settings} {hash256 : Bytes → Bytes} {testnet : Bool}
    {strip : Text → Text} where
  -- The names of a state are those of the one before, or of its table.
  Step-Traces :
      {s t : System}
      → Step settings hash256 testnet strip s t
      → IsTraced s
      → Traces (db_of s).invoices t
  Step-Traces (ledger_round s ledger w) (hc, h) = (hc, round-OfService _ w h)
  Step-Traces (tx_message s parts) (hc, (hq, hw, hr)) =
      (hc, (listen_tx-OfQueues _ hash256 testnet s.cache parts s.ledger.world.queues hc hq, hw, hr))
  Step-Traces (block_message s parts r a) (hc, h) =
      (listen_block-OfCache _ (db_of s) parts r s.cache a (own-IsKnown (db_of s).invoices) hc, h)
  Step-Traces (refresh_round s r a) (hc, h) =
      (refresh-OfCache _ (db_of s) r s.cache a (own-IsKnown (db_of s).invoices) hc, h)
  Step-Traces (open_invoice s registry keys m symbol amount inv db e) h = h
  Step-Traces (payout_step s p st) h = h
  Step-Traces (watcher_restart s r a) (hc, h) =
      (refresh-OfCache _ (db_of s) r [] a (own-IsKnown (db_of s).invoices) tt, h)
  Step-Traces (ledger_restart s) (hc, (hq, hw, hr)) = (hc, (hq, tt, tt))

  Step-IsTraced : {s t : System} → Step settings hash256 testnet strip s t → IsTraced s → IsTraced t
  Step-IsTraced {s} {t} st h =
      Traces-Grows (db_of s).invoices (db_of t).invoices t (Step-Grows st) (Step-Traces st h)

  -- In every state that the system reaches from one where it is so, every entry of the cache, and
  -- every job on the queues and in the tasks of the ledger service, names the id, the address and
  -- the merchant of one invoice that is in the table.
  pub Reach-IsTraced :
      {s t : System} → Reach settings hash256 testnet strip s t → IsTraced s → IsTraced t
  Reach-IsTraced here h = h
  Reach-IsTraced (next r st) h = Step-IsTraced st (Reach-IsTraced r h)
