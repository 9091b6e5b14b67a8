-- ===== src/Api/Auth.antt =====
-- services/api/auth.py and services/api/admin_auth.py: who may call. A header that is missing is
-- `none`; `hmac.compare_digest` compares the encoded texts, and so the texts.
use crypto_pay_system.Prelude.{Bool, not, [], ◌∷◌, Option, none, some, if◌then◌else◌}
use crypto_pay_system.Prelude.Exec.{Exn, Result, ok, err, http_exception}
use crypto_pay_system.Prelude.Rows.{select, scalar_one_or_none}
use crypto_pay_system.Prelude.Text.{Text, text_eq}
use crypto_pay_system.Models.{Merchant, Db}

abbrev pub unauthorized : Exn
unauthorized = http_exception 401

abbrev pub has_key : Text → Merchant → Bool
has_key key m = text_eq m.api_key key

compared : Text → Merchant → Result Merchant
compared x_api_key merchant =
    if not (text_eq merchant.api_key x_api_key) then err unauthorized else ok merchant

resolved : Text → Result (Option Merchant) → Result Merchant
unfolding compared
resolved x_api_key (ok none) = err unauthorized
resolved x_api_key (ok (some merchant)) = compared x_api_key merchant
resolved x_api_key (err e) = err e

-- from the test for `request.state.merchant` on
with_key : Text → Option Merchant → Db → Result Merchant
unfolding resolved
with_key x_api_key (some merchant) db = ok merchant
with_key x_api_key none db =
    resolved x_api_key (scalar_one_or_none (select (has_key x_api_key) db.merchants))

-- `get_current_merchant`: the header, what `request.state` holds, and the database
unfoldable pub get_current_merchant : Option Text → Option Merchant → Db → Result Merchant
unfolding with_key
get_current_merchant none cached db = err unauthorized
get_current_merchant (some []) cached db = err unauthorized
get_current_merchant (some (c ∷ key)) cached db = with_key (c ∷ key) cached db

granted : Text → Text → Result (Unit {0})
granted admin_secret x_admin_secret =
    if not (text_eq admin_secret x_admin_secret) then err (http_exception 403) else ok tt

-- `require_admin`: the configured secret and the header
unfoldable pub require_admin : Text → Option Text → Result (Unit {0})
unfolding granted
require_admin [] x_admin_secret = err (http_exception 503)
require_admin (s ∷ secret) none = err (http_exception 403)
require_admin (s ∷ secret) (some []) = err (http_exception 403)
require_admin (s ∷ secret) (some (c ∷ key)) = granted (s ∷ secret) (c ∷ key)
