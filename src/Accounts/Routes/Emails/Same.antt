-- ===== src/Accounts/Routes/Emails/Same.antt =====
-- The two verifications of an address: the route's (app/routers/auth/email_verification.py) and the
-- service's (app/services/user_service.py).
use fastapi_auth_service.Db.Schema.{Db}
