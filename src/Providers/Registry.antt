-- ===== src/Providers/Registry.antt =====
-- ProviderRegistry of providers/registry.py: a dict from upper-cased symbols to adapters.
use crypto_pay_system.Prelude.{
  Option-cases, inl, inr, ℕ, ◌≡◌, refl, Bool, true, false, List, [], ◌∷◌, Option, none, some, arith,
  if◌then◌else◌,
}
use crypto_pay_system.Prelude.Exec.{Result, ok, err, key_error}
use crypto_pay_system.Prelude.Text.{Text, text_eq, text_eq_iff, upper}

-- The methods of BaseProvider that the services call; an adapter may raise in each.
pub record Provider : Type 0 where
  pub symbol : Text
  pub generate_address : ℕ → ℕ → Result Text
  pub check_confirmations : Text → Result ℕ
  pub validate_address : Text → Bool

abbrev pub Registry : Type 0
Registry = List (Text × Provider)

assoc : Text → Registry → Option Provider
assoc k [] = none
assoc k ((j, v) ∷ d) = if text_eq j k then some v else assoc k d

assign : Text → Provider → Registry → Registry
assign k v [] = (k, v) ∷ []
assign k v ((j, w) ∷ d) = if text_eq j k then (k, v) ∷ d else (j, w) ∷ assign k v d

unfoldable pub register : Provider → Registry → Registry
unfolding assign
register provider d = assign (upper provider.symbol) provider d

found : Option Provider → Result Provider
found (some p) = ok p
found none = err key_error

unfoldable pub get : Text → Registry → Result Provider
unfolding assoc found
get symbol d = found (assoc (upper symbol) d)

-- `symbol in registry`
unfoldable pub contains : Text → Registry → Bool
unfolding assoc
contains symbol d = elim (assoc (upper symbol) d) [ none ↦ false | some p ↦ true ]

assoc-assign :
    (k j : Text) (p : Provider) (d : Registry)
    → assoc k (assign j p d) ≡ (if text_eq j k then some p else assoc k d)
unfolding assoc assign
assoc-assign k j p [] = refl
assoc-assign k j p ((i, w) ∷ d) =
    ground (arith, text_eq_iff i j, text_eq_iff i k, text_eq_iff j k, assoc-assign k j p d)

-- After a provider is registered, `get` returns it for every spelling of its symbol that has the
-- same upper case, and answers as before for every other symbol.
pub get-register :
    (symbol : Text) (p : Provider) (d : Registry)
    → get symbol (register p d)
      ≡ (if text_eq (upper p.symbol) (upper symbol) then ok p else get symbol d)
unfolding get register
get-register symbol p d = rw (assoc-assign (upper symbol) (upper p.symbol) p d) (ground arith)

-- `get` raises KeyError exactly for the symbols that `in` says are absent.
pub contains-get :
    (symbol : Text) (d : Registry)
    → (contains symbol d ≡ false → get symbol d ≡ err key_error)
      × (contains symbol d ≡ true → (p : Provider) × (get symbol d ≡ ok p))
unfolding contains get
contains-get symbol d = elim (Option-cases (assoc (upper symbol) d)) [
  | inl e ↦ (λ h. ground arith, λ h. ground arith)
  | inr (p, e) ↦ (λ h. ground arith, λ h. (p, ground arith))
]

-- After a provider is registered, its symbol is in the registry, however it is spelled.
pub contains-register :
    (symbol : Text) (p : Provider) (d : Registry)
    → contains symbol (register p d)
      ≡ (if text_eq (upper p.symbol) (upper symbol) then true else contains symbol d)
unfolding contains register
contains-register symbol p d = ground (arith, assoc-assign (upper symbol) (upper p.symbol) p d)
