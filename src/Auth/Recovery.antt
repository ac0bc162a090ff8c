-- ===== src/Auth/Recovery.antt =====
-- cmd/auth/handlers.go: password reset and email verification.
use fintech_ecosystem.Base.{ℕ, String, ◌<>◌, Option, none, some, str_eq, ltb, if◌then◌else◌, ◌||◌}
use Prim.Native.String.{len}
use fintech_ecosystem.Auth.Model.{User, AuthDb}
use fintech_ecosystem.Auth.Store.{AuthEnv, AuthResult, done, fault, get_user_by_email}
use fintech_ecosystem.Auth.Service.{
  Draw, AuthService, create_email_verification, create_password_reset, reset_password, verify_email,
}
use fintech_ecosystem.Auth.Handlers.{
  Answer, refuse, reply, AuthHandler, remember, AuthRequest, accept,
}

abbrev pub reset_sent : String
reset_sent = "If an account with that email exists, a password reset link has been sent."

abbrev pub verification_sent : String
verification_sent =
    "If an unverified account with that email exists, a verification email has been sent."

abbrev pub reset_made :
    User → AuthHandler → AuthResult (String × AuthService) → Answer String × AuthHandler
reset_made user h (fault e) = (refuse "Failed to process request", h)
reset_made user h (done (token, s)) = (
  reply 200 reset_sent,
  record { service = s; redis = remember ("debug:reset:" <> user.email) token h.redis },
)

-- An address that is nobody's, or cannot be looked up, gets the answer of one that is.
abbrev pub forgotten :
    AuthEnv → Draw → AuthHandler → AuthResult (Option User) → Answer String × AuthHandler
forgotten env draw h (fault e) = (reply 200 reset_sent, h)
forgotten env draw h (done none) = (reply 200 reset_sent, h)
forgotten env draw h (done (some user)) =
    reset_made user h (create_password_reset env draw user.id h.service)

-- `ForgotPassword`
unfoldable pub forgot_password :
    AuthEnv → Draw → AuthRequest String → AuthHandler → Answer String × AuthHandler
forgot_password env draw r h = accept r h (λ email.
    if str_eq email ""
    then (refuse "Email is required", h)
    else forgotten env draw h (get_user_by_email env email h.service.db))

pub record ResetPasswordRequest : Type 0 where
  pub token : String
  pub new_password : String

-- What became of a change of the tables, with the handler's two answers.
abbrev pub reported :
    String → String → AuthHandler → Option String × AuthDb → Answer String × AuthHandler
reported bad good h (some e, db) = (refuse bad, record h { service = record h.service { db = db } })
reported bad good h (none, db) =
    (reply 200 good, record h { service = record h.service { db = db } })

abbrev pub rehashed :
    AuthEnv → ℕ → String → AuthHandler → Option String → Answer String × AuthHandler
rehashed env now token h none = (refuse "Failed to process request", h)
rehashed env now token h (some hash) =
    reported "Invalid or expired reset token" "Password has been reset successfully." h
      (reset_password env now token hash h.service.db)

-- `ResetPassword`; the length of a password is that of its bytes.
unfoldable pub handle_reset_password :
    AuthEnv → ℕ → AuthRequest ResetPasswordRequest → AuthHandler → Answer String × AuthHandler
handle_reset_password env now r h = accept r h (λ q.
    if str_eq q.token "" || str_eq q.new_password ""
    then (refuse "Token and new password are required", h)
    else (if ltb (len q.new_password) 8
        then (refuse "Password must be at least 8 characters", h)
        else rehashed env now q.token h (env.generate_hash q.new_password)))

-- `VerifyEmail`
unfoldable pub handle_verify_email :
    AuthEnv → ℕ → AuthRequest String → AuthHandler → Answer String × AuthHandler
handle_verify_email env now r h = accept r h (λ token.
    if str_eq token ""
    then (refuse "Verification token is required", h)
    else reported "Invalid or expired verification token" "Email has been verified successfully." h
        (verify_email env now token h.service.db))

abbrev pub verification_made :
    User → AuthHandler → AuthResult (String × AuthDb) → Answer String × AuthHandler
verification_made user h (fault e) = (refuse "Failed to process request", h)
verification_made user h (done (token, db)) = (
  reply 200 verification_sent,
  record {
    service = record h.service { db = db };
    redis = remember ("debug:verify:" <> user.email) token h.redis;
  },
)

abbrev pub resent :
    AuthEnv → Draw → AuthHandler → AuthResult (Option User) → Answer String × AuthHandler
resent env draw h (fault e) = (reply 200 verification_sent, h)
resent env draw h (done none) = (reply 200 verification_sent, h)
resent env draw h (done (some user)) =
    if user.email_verified
    then (reply 200 "Email is already verified.", h)
    else verification_made user h (create_email_verification env draw user.id h.service.db)

-- `ResendVerification`
unfoldable pub resend_verification :
    AuthEnv → Draw → AuthRequest String → AuthHandler → Answer String × AuthHandler
resend_verification env draw r h = accept r h (λ email.
    if str_eq email ""
    then (refuse "Email is required", h)
    else resent env draw h (get_user_by_email env email h.service.db))
