-- ===== src/Api/Admin/Create.antt =====
-- What the registration of a merchant adds.
use crypto_pay_system.Prelude.Text.{Text}
