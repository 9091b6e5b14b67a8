-- ===== src/Payout/Selector/Greedy.antt =====
-- What the greedy selection takes of the ordered candidates, and the order itself.
use crypto_pay_system.Prelude.{
  ℕ, ◌+◌, ◌≤◌, ◌<◌, ◌≡◌, refl, sym, ap, ◌∙◌, ◌⊎◌, inl, inr, ltb, leb, List, [], ◌∷◌, ◌++◌, map,
  arith, All, Bool-cases, append_assoc, append-nil,
}
use mathlib.Core.List.{Perm}
use mathlib.Core.List.Perm
use crypto_pay_system.Prelude.Exec.{ok, err, insufficient_utxo}
use crypto_pay_system.Payout.Selector.{
  SelectedUtxo, Candidate, selected_utxo, greedy_loop, greedy, insert_by_amount, order_by_amount,
}

-- the value of candidates, in satoshis
abbrev pub worth : List Candidate → ℕ
worth [] = 0
worth (c ∷ cs) = c.0.amount + worth cs

-- What the loop returns from a state: a prefix of the rest, which reaches the need, or is all.
pub record Chosen (needed total : ℕ) (cs : List Candidate) (selected : List SelectedUtxo)
    (result : List SelectedUtxo × ℕ) : Type 0 where
  pub taken : List Candidate
  pub rest : List Candidate
  pub prefix : cs ≡ taken ++ rest
  pub chosen : result.0 ≡ selected ++ map selected_utxo taken
  pub sum : result.1 ≡ total + worth taken
  pub enough : (needed ≤ total + worth taken) ⊎ (rest ≡ [])
  pub minimal :
      (front : List Candidate) (last : Candidate)
      → taken ≡ front ++ last ∷ []
      → total + worth front < needed

minimal_nil :
    (needed total : ℕ) (front : List Candidate) (last : Candidate)
    → [] ≡ front ++ last ∷ []
    → total + worth front < needed
minimal_nil needed total [] last h = cc
minimal_nil needed total (f ∷ front) last h = cc

minimal_cons :
    (needed total : ℕ) (c : Candidate) (taken : List Candidate)
    → total < needed
    → ((front : List Candidate) (last : Candidate)
        → taken ≡ front ++ last ∷ []
        → total + c.0.amount + worth front < needed)
    → (front : List Candidate) (last : Candidate) → c ∷ taken ≡ front ++ last ∷ []
    → total + worth front < needed
minimal_cons needed total c taken lt k [] last h = omega arith
minimal_cons needed total c taken lt k (f ∷ front) last h = ground (arith, k front last)

more_enough :
    (needed total : ℕ) (c : Candidate) (taken rest : List Candidate)
    → (needed ≤ total + c.0.amount + worth taken) ⊎ (rest ≡ [])
    → (needed ≤ total + worth (c ∷ taken)) ⊎ (rest ≡ [])
more_enough needed total c taken rest (inl h) = inl (omega arith)
more_enough needed total c taken rest (inr h) = inr h

loop-Chosen :
    (needed : ℕ) (cs : List Candidate) (selected : List SelectedUtxo) (total : ℕ)
    → Chosen needed total cs selected (greedy_loop needed cs selected total)
unfolding greedy_loop
loop-Chosen needed [] selected total = record {
  taken = [];
  rest = [];
  prefix = refl;
  chosen = sym (append-nil selected);
  sum = omega arith;
  enough = inr refl;
  minimal = minimal_nil needed total;
}
loop-Chosen needed (c ∷ cs) selected total = elim (Bool-cases (leb needed total)) [
  | inl e ↦ record {
    taken = [];
    rest = c ∷ cs;
    prefix = refl;
    chosen = rw e (sym (append-nil selected));
    sum = rw e (omega arith);
    enough = inl (ground arith);
    minimal = minimal_nil needed total;
  }
  | inr e ↦
      let k = loop-Chosen needed cs (selected ++ selected_utxo c ∷ []) (total + c.0.amount) in
      record {
        taken = c ∷ k.taken;
        rest = k.rest;
        prefix = ap (λ (r : List Candidate). c ∷ r) k.prefix;
        chosen =
            rw e
              (k.chosen ∙ append_assoc selected (selected_utxo c ∷ []) (map selected_utxo k.taken));
        sum = rw e (omega (arith, k.sum));
        enough = more_enough needed total c k.taken k.rest k.enough;
        minimal = minimal_cons needed total c k.taken (ground arith) k.minimal;
      }
]

worth-append : (xs ys : List Candidate) → worth (xs ++ ys) ≡ worth xs + worth ys
worth-append [] ys = omega arith
worth-append (x ∷ xs) ys = omega (arith, worth-append xs ys)

short_worth :
    (needed : ℕ) (cs taken rest : List Candidate)
    → cs ≡ taken ++ rest
    → worth taken < needed
    → (needed ≤ 0 + worth taken) ⊎ (rest ≡ [])
    → worth cs < needed
short_worth needed cs taken rest p lt (inl h) = absurd (omega arith)
short_worth needed cs taken rest p lt (inr e) = rw p (rw e (rw append-nil lt))

snoc_cases :
    (cs : List Candidate)
    → (cs ≡ []) ⊎ ((front : List Candidate) × (last : Candidate) × (cs ≡ front ++ last ∷ []))
snoc_cases [] = inl refl
snoc_cases (c ∷ cs) = elim (snoc_cases cs) [
  | inl e ↦ inr ([], c, ap (λ (r : List Candidate). c ∷ r) e)
  | inr (front, last, e) ↦ inr (c ∷ front, last, ap (λ (r : List Candidate). c ∷ r) e)
]

short_front :
    (needed : ℕ) (taken : List Candidate)
    → ((front : List Candidate) (last : Candidate)
        → taken ≡ front ++ last ∷ []
        → worth front < needed)
    → (taken ≡ [])
      ⊎ ((front : List Candidate) × (last : Candidate) × (taken ≡ front ++ last ∷ [])
          × (worth front < needed))
short_front needed taken minimal = elim (snoc_cases taken) [
  | inl e ↦ inl e
  | inr (front, last, e) ↦ inr (front, last, e, minimal front last e)
]

-- Coin selection, on candidates in any order. Either it returns a prefix of the candidates that is
-- worth at least the need, and no shorter prefix is: it is empty, or falls short of the need
-- without its last coin. Or all candidates together are worth less than the need, and it raises InsufficientUTXOError.
pub greedy_lem :
    (needed : ℕ) (cs : List Candidate)
    → ((taken : List Candidate) × (rest : List Candidate) × (cs ≡ taken ++ rest)
        × (greedy needed cs ≡ ok (map selected_utxo taken))
        × (needed ≤ worth taken)
        × ((taken ≡ [])
            ⊎ ((front : List Candidate) × (last : Candidate) × (taken ≡ front ++ last ∷ [])
                × (worth front < needed))))
      ⊎ ((greedy needed cs ≡ err insufficient_utxo) × (worth cs < needed))
unfolding greedy
greedy_lem needed cs =
    let k = loop-Chosen needed cs [] 0 in
    let (result, total) = greedy_loop needed cs [] 0 in
    elim (Bool-cases (ltb total needed)) [
      | inl short ↦ inr (
        rw short refl,
        short_worth needed cs k.taken k.rest k.prefix (ground (arith, k.sum)) k.enough,
      )
      | inr met ↦ inl (
        k.taken,
        k.rest,
        k.prefix,
        rw met (ap ok k.chosen),
        ground (arith, k.sum),
        short_front needed k.taken (λ front last h. omega (arith, k.minimal front last h)),
      )
    ]

-- ascending amounts
abbrev pub IsAscending : List Candidate → Type 0
IsAscending [] = Unit
IsAscending (c ∷ cs) = All (λ (d : Candidate). c.0.amount ≤ d.0.amount) cs × IsAscending cs

All-insert :
    (n : ℕ) (x : Candidate) (cs : List Candidate)
    → n ≤ x.0.amount
    → All (λ (d : Candidate). n ≤ d.0.amount) cs
    → All (λ (d : Candidate). n ≤ d.0.amount) (insert_by_amount x cs)
unfolding insert_by_amount
All-insert n x [] h k = (h, tt)
All-insert n x (y ∷ ys) h k = ground (arith, All-insert n x ys h k.1)

All-weaken :
    (n m : ℕ) (cs : List Candidate)
    → n ≤ m
    → All (λ (d : Candidate). m ≤ d.0.amount) cs
    → All (λ (d : Candidate). n ≤ d.0.amount) cs
All-weaken n m [] h k = tt
All-weaken n m (c ∷ cs) h k = (omega arith, All-weaken n m cs h k.1)

insert-IsAscending :
    (x : Candidate) (cs : List Candidate) → IsAscending cs → IsAscending (insert_by_amount x cs)
unfolding insert_by_amount
insert-IsAscending x [] h = (tt, tt)
insert-IsAscending x (y ∷ ys) h = elim (Bool-cases (leb x.0.amount y.0.amount)) [
  | inl e ↦ rw e ((ground arith, All-weaken x.0.amount y.0.amount ys (ground arith) h.0), h)
  | inr e ↦ rw e (All-insert y.0.amount x ys (ground arith) h.0, insert-IsAscending x ys h.1)
]

insert-perm : (x : Candidate) (cs : List Candidate) → Perm (insert_by_amount x cs) (x ∷ cs)
unfolding insert_by_amount
insert-perm x [] = Perm.refl (x ∷ [])
insert-perm x (y ∷ ys) = elim (Bool-cases (leb x.0.amount y.0.amount)) [
  | inl e ↦ rw e (Perm.refl (x ∷ y ∷ ys))
  | inr e ↦ rw e (Perm.trans (Perm.cons y (insert-perm x ys)) (Perm.swap x y ys))
]

-- The order of the query: the same candidates, as often, by ascending amount.
pub order_by_amount_lem :
    (cs : List Candidate) → IsAscending (order_by_amount cs) × Perm (order_by_amount cs) cs
unfolding order_by_amount
order_by_amount_lem [] = (tt, Perm.refl [])
order_by_amount_lem (c ∷ cs) =
    let (s, p) = order_by_amount_lem cs in
    (
      insert-IsAscending c (order_by_amount cs) s,
      Perm.trans (insert-perm c (order_by_amount cs)) (Perm.cons c p),
    )
