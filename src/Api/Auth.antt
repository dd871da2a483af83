-- ===== src/Api/Auth.antt =====
-- owtf/api/handlers/auth.py over the tables of owtf/models/user.py, user_login_token.py and
-- email_confirmation.py.

pub mod Login
pub mod Register
use owtf.Base.{
  ℕ, ◌+◌, String, Bool, true, false, not, ◌&&◌, ◌||◌, Option, none, some, List, [], ◌∷◌, str_eq,
  leb, ◌==◌, if◌then◌else◌, is_some, find_first, any,
}
use Prim.Native.String
use Prim.Native.Char.{code}
use owtf.Api.{Handler, done, raise, success, change, ask, ◌>>=◌, ◌>>◌}
use owtf.Base.Text.{size}
use owtf.Db.Table.{Table}
use owtf.Exceptions.{attribute_error, type_error, database_error, api_error, index_error}

-- class User
pub record User : Type 0 where
  pub id : ℕ
  pub name : String
  pub email : String
  -- the hash
  pub password : String
  pub is_active : Bool
  pub otp_secret_key : String

-- class UserLoginToken
pub record LoginToken : Type 0 where
  pub id : ℕ
  pub user_id : ℕ
  pub token : String

-- class EmailConfirmation
pub record Confirmation : Type 0 where
  pub id : ℕ
  pub key_value : String
  pub expiration_time : ℕ
  pub user_id : ℕ

-- What an e-mail of the framework carries to its address.
pub data Mail : Type 0 where
  activation_link : (to key : String) → Mail
  otp_mail : (to otp : String) → Mail

-- The `data` of an answer.
pub data Answer : Type 0 where
  succeeded : (message : String) → Answer
  failed : (message : String) → Answer
  jwt_token : (token : String) → Answer
  link_expired : (email : String) → Answer

-- What comes from outside the repository: bcrypt, PyJWT, pyotp and the regular expressions of
-- owtf/settings.py. A time is a number of seconds.
pub record Crypto : Type 0 where
  -- bcrypt.hashpw(password, bcrypt.gensalt()), for the salt that was drawn
  pub hash : (salt password : String) → String
  -- bcrypt.hashpw(password, hashed) == hashed
  pub matches : (password hashed : String) → Bool
  -- jwt.encode of the payload
  pub encode : (user_id exp : ℕ) (username : String) → String
  -- jwt.decode, `none` for an exception; the payload's user id
  pub decode : (now : ℕ) → String → Option (Option ℕ)
  -- TOTP(secret, interval=300).now() and .verify(otp)
  pub otp_now : (secret : String) (now : ℕ) → String
  pub otp_verify : (secret otp : String) (now : ℕ) → Bool
  pub strong : String → Bool
  pub is_email : String → Bool

-- The tables and the packages that the handlers use.
pub record Environment : Type 1 where
  pub users : Table User
  pub tokens : Table LoginToken
  pub confirmations : Table Confirmation
  pub crypto : Crypto

pub record Accounts (env : Environment) : Type 0 where
  pub user_rows : env.users.State
  pub token_rows : env.tokens.State
  pub confirmation_rows : env.confirmations.State
  pub mails : List Mail

abbrev pub jwt_exp_delta : ℕ
jwt_exp_delta = 86400

-- `if not argument`
abbrev pub is_missing : Option String → Bool
is_missing none = true
is_missing (some text) = str_eq text ""

-- `if not argument: self.success(err)`, which does not return
abbrev pub warn_if : {S : Type 0} → Bool → String → Handler S Answer (Unit {0})
warn_if b message = if b then success (failed message) else done

abbrev pub has_email : String → User → Bool
has_email email u = str_eq u.email email

abbrev pub is_called : String → User → Bool
is_called name u = str_eq u.name name

abbrev pub new_token : ℕ → String → ℕ → LoginToken
new_token user_id token id = record { id = id; user_id = user_id; token = token }

-- The texts of a row fit Unicode(255).
abbrev pub fits_columns : (name email hashed secret : String) → Bool
fits_columns name email hashed secret =
    leb (size name) 255 && leb (size email) 255 && leb (size hashed) 255 && leb (size secret) 255

abbrev pub new_user : String → String → String → String → ℕ → User
new_user name email password otp_secret_key id = record {
  id = id;
  name = name;
  email = email;
  password = password;
  is_active = false;
  otp_secret_key = otp_secret_key;
}

abbrev pub same_text : Option String → Option String → Bool
same_text none none = true
same_text (some a) (some b) = str_eq a b
same_text _ _ = false

abbrev pub has_token : String → LoginToken → Bool
has_token token t = str_eq t.token token

-- `parts[0].lower() != "bearer"`, over the code points
abbrev lower : ℕ → ℕ
lower c = if leb 65 c && leb c 90 then c + 32 else c

abbrev same_folded : String → String → Bool
same_folded String.[] String.[] = true
same_folded (String.◌∷◌ c s) (String.◌∷◌ d t) = lower (code c) == lower (code d) && same_folded s t
same_folded _ _ = false

abbrev pub is_bearer : String → Bool
is_bearer scheme = same_folded scheme "bearer"

module _ (env : Environment) where
  abbrev pub Web : Type 0 → Type 0
  Web = Handler (Accounts env) Answer

  -- `filter_by(email=...).first()`; None is looked for as NULL, which the column does not hold
  unfoldable pub find_by : (String → User → Bool) → Option String → env.users.State → Option User
  find_by p none s = none
  find_by p (some text) s = find_first (p text) (env.users.rows s)

  -- by e-mail, then by name
  unfoldable pub find_user : Option String → env.users.State → Option User
  unfolding find_by
  find_user text s = elim (find_by has_email text s) [
    | some u ↦ some u
    | none ↦ find_by is_called text s
  ]

  unfoldable pub add_user_login_token : String → ℕ → Web (Unit {0})
  add_user_login_token token user_id =
      change (λ s. record s { token_rows = env.tokens.add (new_token user_id token) s.token_rows })

  unfoldable pub issue : ℕ → User → Web (Unit {0})
  unfolding add_user_login_token
  issue utcnow u =
      let token = env.crypto.encode u.id (utcnow + jwt_exp_delta) u.name in
      do add_user_login_token token u.id; success (jwt_token token)

  unfoldable pub refuse : User → Web (Unit {0})
  refuse u =
      if u.is_active
      then success (failed "Invalid login credentials")
      else success (failed "Your account is not active")

  unfoldable pub log_in : ℕ → Option String → Option User → Web (Unit {0})
  unfolding issue refuse
  log_in utcnow password none = success (failed "Invalid login credentials")
  log_in utcnow none (some u) = if str_eq u.password "" then refuse u else raise attribute_error
  log_in utcnow (some password) (some u) =
      if not (str_eq u.password "") && env.crypto.matches password u.password && u.is_active
      then issue utcnow u
      else refuse u

  -- LogInHandler.post
  unfoldable pub post_login : ℕ → (email_or_username password : Option String) → Web (Unit {0})
  unfolding log_in find_user
  post_login utcnow email_or_username password = do
    warn_if (is_missing email_or_username) "Missing email or username value"
    warn_if (is_missing password) "Missing password value"
    user ← ask (λ s. find_user email_or_username s.user_rows)
    log_in utcnow password user

  -- A NULL name or address, a name, an address or a key that is taken, and a text that is too long for
  -- its column are errors of the database.
  unfoldable pub add_user : (name email : Option String) (hashed secret : String) → Web (Unit {0})
  add_user (some name) (some email) hashed secret = do
    taken ← ask (λ s.
        any (λ u. is_called name u || has_email email u || str_eq u.otp_secret_key secret)
          (env.users.rows s.user_rows))
    if taken || not (fits_columns name email hashed secret)
        then raise database_error
        else change (λ s. record s {
          user_rows = env.users.add (new_user name email hashed secret) s.user_rows;
        })
  add_user _ _ hashed secret = raise database_error

  -- `re.search(pattern, text)`, a TypeError for None
  abbrev pub search_in : (String → Bool) → Option String → Web Bool
  search_in pattern none = raise type_error
  search_in pattern (some text) = ask (λ _. pattern text)

  -- The part of the handler after its searches.
  unfoldable pub create :
      (salt secret : String)
      → (username email : Option String) → (password confirm_password : Option String)
      → (name_taken email_taken match_password match_email : Bool) → Web (Unit {0})
  unfolding add_user
  create salt secret username email none confirm_password name_taken email_taken mp me =
      raise attribute_error
  create salt secret username email (some password) confirm_password name_taken email_taken mp me =
      if not (same_text (some password) confirm_password)
      then success (failed "Password doesn't match")
      else if not me
      then success (failed "Choose a valid email")
      else if not mp
      then success (failed "Choose a strong password")
      else if name_taken
      then success (failed "Username already exists")
      else if email_taken
      then success (failed "Email already exists")
      else (do
        add_user username email (env.crypto.hash salt password) secret
        success (succeeded "User created successfully"))

  -- RegisterHandler.post; `salt` and `secret` are what bcrypt and pyotp draw.
  unfoldable pub post_register :
      (salt secret : String)
      → (username email password confirm_password : Option String) → Web (Unit {0})
  unfolding create find_by
  post_register salt secret username email password confirm_password = do
    warn_if (is_missing username) "Missing username value"
    warn_if (is_missing email) "Missing email value"
    warn_if (is_missing password) "Missing password value"
    warn_if (is_missing confirm_password) "Missing confirm password value"
    email_taken ← ask (λ s. is_some (find_by has_email email s.user_rows))
    name_taken ← ask (λ s. is_some (find_by is_called username s.user_rows))
    match_password ← search_in env.crypto.strong password
    match_email ← search_in env.crypto.is_email email
    create salt secret username email password confirm_password name_taken email_taken
        match_password match_email

  -- The first row of the token goes.
  unfoldable pub delete_user_login_token : String → Web (Unit {0})
  delete_user_login_token token = change (λ s.
      elim (find_first (has_token token) (env.tokens.rows s.token_rows)) [
        | none ↦ s
        | some t ↦ record s { token_rows = env.tokens.delete (λ u. u.id == t.id) s.token_rows }
      ])

  -- LogOutHandler.get, with the parts of the Authorization header
  unfoldable pub get_logout : Option (List String) → Web (Unit {0})
  unfolding delete_user_login_token
  get_logout none = raise api_error
  get_logout (some (scheme ∷ token ∷ _)) = do
    delete_user_login_token token
    success (succeeded "Logged out")
  get_logout (some _) = raise index_error

  -- `jwtauth` (owtf/api/handlers/jwtauth.py): does the handler run? One that was answered by the
  -- decorator does not; an exception in the decorator ends the request.
  unfoldable pub require_auth : (now : ℕ) → Option (List String) → Accounts env → Bool
  require_auth now (some (scheme ∷ token ∷ [])) s =
      is_bearer scheme && elim (env.crypto.decode now token) [
        | some (some user_id) ↦
            any (λ t. t.user_id == user_id && str_eq t.token token) (env.tokens.rows s.token_rows)
        | _ ↦ false
      ]
  require_auth now _ s = false
