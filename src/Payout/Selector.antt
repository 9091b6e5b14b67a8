-- ===== src/Payout/Selector.antt =====
-- UTXOSelector of services/payout/selector.py. An amount of a row is in satoshis already.
pub mod Greedy
use crypto_pay_system.Prelude.{
  ℕ, ◌+◌, ◌==◌, ltb, leb, Bool, true, false, not, ◌&&◌, List, [], ◌∷◌, ◌++◌, Option, none, some,
  if◌then◌else◌,
}
use crypto_pay_system.Prelude.Exec.{Result, ok, err, insufficient_utxo}
use crypto_pay_system.Prelude.Rows.{select}
use crypto_pay_system.Prelude.Text.{Text}
use crypto_pay_system.Models.{Invoice, Utxo, Db}

pub record SelectedUtxo : Type 0 where
  pub utxo_id : ℕ
  pub txid : Text
  pub vout : ℕ
  pub amount_sat : ℕ
  pub derivation_index : ℕ
  pub change : ℕ
  pub script_pubkey : Option Text

abbrev pub Candidate : Type 0
Candidate = Utxo × ℕ

-- SELECT UTXO, Invoice.derivation_index … JOIN Invoice … WHERE …: the row of one invoice
joined : ℕ → ℕ → List Invoice → Utxo → List Candidate
joined merchant_id coin_id [] u = []
joined merchant_id coin_id (i ∷ is) u =
    let rest = joined merchant_id coin_id is u in
    if u.invoice_id == i.id
      && (i.merchant_id == merchant_id && i.coin_id == coin_id && not u.is_spent)
    then (u, i.derivation_index) ∷ rest
    else rest

candidates_from : ℕ → ℕ → List Invoice → List Utxo → List Candidate
candidates_from merchant_id coin_id invoices [] = []
candidates_from merchant_id coin_id invoices (u ∷ us) =
    joined merchant_id coin_id invoices u ++ candidates_from merchant_id coin_id invoices us

unfoldable pub candidates : ℕ → ℕ → Db → List Candidate
unfolding joined candidates_from
candidates merchant_id coin_id db = candidates_from merchant_id coin_id db.invoices db.utxos

-- ORDER BY UTXO.amount ASC
unfoldable pub insert_by_amount : Candidate → List Candidate → List Candidate
insert_by_amount x [] = x ∷ []
insert_by_amount x (y ∷ ys) =
    let rest = insert_by_amount x ys in if leb x.0.amount y.0.amount then x ∷ y ∷ ys else y ∷ rest

unfoldable pub order_by_amount : List Candidate → List Candidate
order_by_amount [] = []
order_by_amount (x ∷ xs) = insert_by_amount x (order_by_amount xs)

abbrev pub selected_utxo : Candidate → SelectedUtxo
selected_utxo (utxo, derivation_index) = record {
  utxo_id = utxo.id;
  txid = utxo.txid;
  vout = utxo.vout;
  amount_sat = utxo.amount;
  derivation_index = derivation_index;
  change = 0;
  script_pubkey = utxo.script_pubkey;
}

-- the loop of `_greedy`: what is still to be looked at, what has been selected, and its total
unfoldable pub greedy_loop : ℕ → List Candidate → List SelectedUtxo → ℕ → List SelectedUtxo × ℕ
greedy_loop needed_sat [] selected total = (selected, total)
greedy_loop needed_sat (c ∷ cs) selected total =
    let rest = greedy_loop needed_sat cs (selected ++ selected_utxo c ∷ []) (total + c.0.amount) in
    if leb needed_sat total then (selected, total) else rest

pub greedy : ℕ → List Candidate → Result (List SelectedUtxo)
greedy needed_sat cs =
    let (selected, total) = greedy_loop needed_sat cs [] 0 in
    if ltb total needed_sat then err insufficient_utxo else ok selected

-- `if not candidates`
pub non_empty : List Candidate → Result (List Candidate)
non_empty [] = err insufficient_utxo
non_empty (c ∷ cs) = ok (c ∷ cs)

-- `UTXOSelector.select`
unfoldable pub select_utxos : ℕ → ℕ → ℕ → ℕ → Db → Result (List SelectedUtxo)
unfolding greedy non_empty
select_utxos merchant_id coin_id target_sat fee_estimate_sat db =
    let cs = order_by_amount (candidates merchant_id coin_id db) in
    elim (non_empty cs) [ ok cs' ↦ greedy (target_sat + fee_estimate_sat) cs' | err e ↦ err e ]
