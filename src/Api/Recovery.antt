-- ===== src/Api/Recovery.antt =====
-- The activation of accounts and the change of passwords, of owtf/api/handlers/auth.py, and the
-- class methods of owtf/models/user.py and email_confirmation.py that they call.

pub mod Activation
pub mod FirstLogin
pub mod Password
use owtf.Base.{
  ℕ, ◌+◌, ◌/◌, String, Bool, true, Option, none, some, [], ◌∷◌, ◌++◌, str_eq, leb, ◌==◌,
  if◌then◌else◌, is_some, find_first,
}
use owtf.Api.{raise, success, change, ask, ◌>>=◌, ◌>>◌}
use owtf.Api.Auth.{
  User, Confirmation, Mail, activation_link, otp_mail, succeeded, failed, link_expired, Environment,
  Web, find_by, find_user, has_email,
}
use owtf.Exceptions.{attribute_error, type_error}

-- One hour.
abbrev pub link_lifetime : ℕ
link_lifetime = 3600

abbrev pub of_user : ℕ → Confirmation → Bool
of_user user_id c = c.user_id == user_id

abbrev pub has_key : String → Confirmation → Bool
has_key key c = str_eq c.key_value key

abbrev pub new_confirmation : String → ℕ → ℕ → ℕ → Confirmation
new_confirmation key expiration_time user_id id = record {
  id = id;
  key_value = key;
  expiration_time = expiration_time;
  user_id = user_id;
}

abbrev pub has_user_id : ℕ → User → Bool
has_user_id id u = u.id == id

abbrev pub activated : User → User
activated u = record u { is_active = true }

abbrev pub with_password : String → User → User
with_password hashed u = record u { password = hashed }

module _ (env : Environment) where
  unfoldable pub remove_previous_all : ℕ → Web env (Unit {0})
  remove_previous_all user_id = change (λ s. record s {
    confirmation_rows = env.confirmations.delete (of_user user_id) s.confirmation_rows;
  })

  unfoldable pub add_confirm_password : String → ℕ → ℕ → Web env (Unit {0})
  add_confirm_password key expiration_time user_id = change (λ s. record s {
    confirmation_rows =
        env.confirmations.add (new_confirmation key expiration_time user_id) s.confirmation_rows;
  })

  unfoldable pub send_email : Mail → Web env (Unit {0})
  send_email mail = change (λ s. record s { mails = s.mails ++ mail ∷ [] })

  -- An address of no user is an AttributeError.
  unfoldable pub send_link :
      (key : String) (now : ℕ) → (email : String) → Option User → Web env (Unit {0})
  unfolding remove_previous_all add_confirm_password send_email
  send_link key now email none = raise attribute_error
  send_link key now email (some u) = do
    remove_previous_all u.id
    add_confirm_password key (now + link_lifetime) u.id
    send_email (activation_link email key)
    success (succeeded "Email send successful")

  -- AccountActivationGenerateHandler.post; `key` is the UUID that is drawn.
  unfoldable pub post_generate_link : (key : String) (now : ℕ) → Option String → Web env (Unit {0})
  unfolding send_link find_by
  post_generate_link key now none = raise attribute_error
  post_generate_link key now (some email) = do
    user ← ask (λ s. find_by env has_email (some email) s.user_rows)
    send_link key now email user

  -- The first user of the id becomes active; no user is an AttributeError.
  unfoldable pub activate_user : ℕ → Web env (Unit {0})
  activate_user user_id = do
    found ← ask (λ s. is_some (find_first (has_user_id user_id) (env.users.rows s.user_rows)))
    if found
        then change (λ s. record s {
          user_rows = env.users.update (has_user_id user_id) activated s.user_rows;
        })
        else raise attribute_error

  unfoldable pub validate : (now : ℕ) → Option Confirmation → Web env (Unit {0})
  unfolding activate_user
  validate now none = success (succeeded "Invalid Link")
  validate now (some c) =
      if leb now c.expiration_time
      then (do activate_user c.user_id; success (succeeded "Email Verified"))
      else (do
        user ← ask (λ s. find_first (has_user_id c.user_id) (env.users.rows s.user_rows))
        elim user [ none ↦ raise attribute_error | some u ↦ success (link_expired u.email) ])

  -- AccountActivationValidateHandler.get
  unfoldable pub get_validate_link : (now : ℕ) → (key : String) → Web env (Unit {0})
  unfolding validate
  get_validate_link now key = do
    c ← ask (λ s. find_first (has_key key) (env.confirmations.rows s.confirmation_rows))
    validate now c

  unfoldable pub send_otp : (now : ℕ) → Option User → Web env (Unit {0})
  unfolding send_email
  send_otp now none = success (failed "Username / Email doesn't exist")
  send_otp now (some u) = do
    send_email (otp_mail u.email (env.crypto.otp_now u.otp_secret_key now))
    success (succeeded "Otp Send Successful")

  -- OtpGenerateHandler.post
  unfoldable pub post_generate_otp : (now : ℕ) → Option String → Web env (Unit {0})
  unfolding send_otp find_user
  post_generate_otp now email_or_username = do
    user ← ask (λ s. find_user env email_or_username s.user_rows)
    send_otp now user

  unfoldable pub verify_otp : (now : ℕ) → Option String → Option User → Web env (Unit {0})
  verify_otp now (some otp) (some u) =
      if env.crypto.otp_verify u.otp_secret_key otp now
      then success (succeeded "OTP Verified")
      else success (failed "Invalid OTP")
  verify_otp now _ _ = success (failed "Username / Email doesn't exist")

  -- OtpVerifyHandler.post
  unfoldable pub post_verify_otp :
      (now : ℕ) → (email_or_username otp : Option String) → Web env (Unit {0})
  unfolding verify_otp find_user
  post_verify_otp now email_or_username otp = do
    user ← ask (λ s. find_user env email_or_username s.user_rows)
    verify_otp now otp user

  -- The first user of the address gets the password.
  unfoldable pub change_password : (email hashed : String) → Web env (Unit {0})
  change_password email hashed = do
    user ← ask (λ s. find_first (has_email email) (env.users.rows s.user_rows))
    elim user [
      | none ↦ raise attribute_error
      | some u ↦ change (λ s. record s {
        user_rows = env.users.update (has_user_id u.id) (with_password hashed) s.user_rows;
      })
    ]

  unfoldable pub new_password :
      (salt : String) (now : ℕ)
      → (password : String) → (otp : Option String) → Option User
      → Web env (Unit {0})
  unfolding change_password
  new_password salt now password (some otp) (some u) =
      if env.crypto.otp_verify u.otp_secret_key otp now
      then (do
        change_password u.email (env.crypto.hash salt password)
        success (succeeded "Password Change Successful"))
      else success (failed "Invalid OTP")
  new_password salt now password _ _ = success (failed "Password Change Unsuccessful")

  -- PasswordChangeHandler.post; a missing password is a TypeError of the search in it.
  unfoldable pub post_new_password :
      (salt : String) (now : ℕ)
      → (password email_or_username otp : Option String) → Web env (Unit {0})
  unfolding new_password find_user
  post_new_password salt now none email_or_username otp = raise type_error
  post_new_password salt now (some password) email_or_username otp = do
    user ← ask (λ s. find_user env email_or_username s.user_rows)
    if env.crypto.strong password
        then new_password salt now password otp user
        else success (failed "Choose a strong password")
