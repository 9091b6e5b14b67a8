-- ===== src/Tests/Tasks.antt =====
-- The background tasks of payouts, at the data of Tests.Data: two payouts of one account.
use crypto_pay_system.Prelude.{ℕ, ◌≡◌, refl, [], ◌∷◌, arith}
use crypto_pay_system.Prelude.Exec.{ok, atomically}
use crypto_pay_system.Prelude.Int.{◌+ℤ◌, int_laws}
use crypto_pay_system.Prelude.Rows.{sum, select, modify_where, scalar_one_or_none, unique, any}
use crypto_pay_system.Funds.{IsSolvent, held_weight, earned_weight, paid_weight}
use crypto_pay_system.Ledger.Accounting.{is_account, constraints, flush}
use crypto_pay_system.Payout.Selector.{
  order_by_amount, insert_by_amount, greedy_loop, select_utxos, candidates,
}
use crypto_pay_system.Models.{PayoutStatus, Payout, Db}
use crypto_pay_system.Payout.Processor.{prepare}
use crypto_pay_system.Payout.Processor.Books.{NotSent}
use crypto_pay_system.Payout.Processor.Sends.{frozen}
use crypto_pay_system.Payout.Service.{
  PayoutService, new_task, next_stage, resumed, resume, here, next, prepared, done,
}
use crypto_pay_system.Payout.Service.Sound.{IsSound, IsDistinct, Reach-IsSound}
use crypto_pay_system.Payout.Service.Final.{IsFinal, Reach-IsFinal}
use crypto_pay_system.Payout.Service.Twice.{prepare_twice}
use crypto_pay_system.Tests.Data.{payout, balance}
use crypto_pay_system.Tests.Payout.{env, books, coins}

abbrev first : Payout
first = record payout { amount_requested = 30_000 }

abbrev second : Payout
second = record first { id = 10 }

abbrev two : Db
two = record books { payouts = first ∷ second ∷ [] }

two-IsSolvent : IsSolvent two
unfolding sum held_weight earned_weight paid_weight ◌+ℤ◌
two-IsSolvent m c = ground arith

two-NotSent : (id : ℕ) → NotSent id two
unfolding select
two-NotSent id p e = ground arith

abbrev waiting : PayoutService
waiting = record { db = two; tasks = new_task env 9 ∷ new_task env 10 ∷ [] }

-- the second task has taken its first step, then the first
abbrev one_prepared : PayoutService
one_prepared = resumed (new_task env 9 ∷ []) (new_task env 10) [] two

abbrev both_prepared : PayoutService
both_prepared =
    resumed [] (new_task env 9) (record (new_task env 10) { stage = prepared second coins } ∷ [])
      one_prepared.db

waiting-IsSound : IsSound waiting
unfolding IsDistinct
waiting-IsSound = (
  two-IsSolvent,
  (λ open_task. two-NotSent 9, (λ open_task. two-NotSent 10, tt)),
  ((λ e. cc, tt), (tt, tt)),
)

test_both_prepared : IsSound both_prepared
unfolding resumed next_stage prepare select is_account constraints unique any select_utxos
    scalar_one_or_none candidates order_by_amount insert_by_amount greedy_loop modify_where flush
    atomically
test_both_prepared =
    Reach-IsSound {strip = λ text. text}
      (next (next here (resume waiting (new_task env 9 ∷ []) (new_task env 10) [] refl)) (
        resume one_prepared [] (new_task env 9)
          (record (new_task env 10) { stage = prepared second coins } ∷ []) refl))
      waiting-IsSound

abbrev frozen_once : Db
frozen_once = (prepare env 9 two).1

prepare_twice_example : prepare env 10 frozen_once ≡ (ok (second, coins), frozen second frozen_once)
unfolding prepare select is_account constraints unique any select_utxos scalar_one_or_none
    candidates order_by_amount insert_by_amount greedy_loop modify_where flush
prepare_twice_example =
    prepare_twice env 9 10 two frozen_once first second balance coins refl refl refl refl refl refl
      refl (omega int_laws) refl refl

-- the first payout is done, and the second is prepared
abbrev sent_first : Payout
sent_first = record first { status = PayoutStatus.sent }

abbrev sent_db : Db
sent_db = record two { payouts = sent_first ∷ second ∷ [] }

abbrev half_done : PayoutService
half_done = record {
  db = sent_db;
  tasks = record (new_task env 9) { stage = done } ∷ new_task env 10 ∷ [];
}

Reach-IsFinal_example :
    IsFinal 9 sent_first
      (resumed (record (new_task env 9) { stage = done } ∷ []) (new_task env 10) [] sent_db)
unfolding select
Reach-IsFinal_example =
    Reach-IsFinal {strip = λ text. text} 9 sent_first
      (next here (
        resume half_done (record (new_task env 9) { stage = done } ∷ []) (new_task env 10) [] refl))
      (refl, (λ same. refl, (λ same. cc, tt)))
