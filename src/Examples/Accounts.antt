-- ===== src/Examples/Accounts.antt =====
-- The handlers at concrete inputs.

use owtf.Base.{
  ℕ, zero, suc, String, ◌≡◌, refl, ap, true, false, not, ◌⊎◌, none, some, [], ◌∷◌, arith, str_eq,
  reject,
}
use owtf.Api.{request, success}
use owtf.Api.Auth.{
  User, failed, succeeded, jwt_token, Crypto, Environment, Accounts, post_register, post_login,
  find_user, require_auth,
}
use owtf.Api.Auth.Login.{DecodesTokens, get_logout-post_login, logged_out}
use owtf.Api.Auth.Register.{registered, post_register_lem}
use owtf.Api.Recovery.{post_generate_link, get_validate_link, post_new_password, has_user_id}
use owtf.Api.Recovery.Activation.{after}
use owtf.Api.Recovery.FirstLogin.{post_login-get_validate_link}
use owtf.Api.Recovery.Password.{
  post_login-post_new_password, IsVerified, post_new_password-IsVerified,
}
use owtf.Db.Memory.{memory}
use owtf.Exceptions.{ok, runtime_error, err}

-- A token that has one letter for each unit of the user's id.
abbrev letters : ℕ → String
letters zero = ""
letters (suc n) = String.◌∷◌ "i" (letters n)

abbrev count : String → ℕ
count String.[] = 0
count (String.◌∷◌ c s) = suc (count s)

count-letters : (n : ℕ) → count (letters n) ≡ n
count-letters zero = refl
count-letters (suc n) = ap suc (count-letters n)

abbrev toy_crypto : Crypto
toy_crypto = record {
  hash = λ salt password. password;
  matches = str_eq;
  encode = λ user_id exp name. letters user_id;
  decode = λ now token. some (some (count token));
  otp_now = λ secret now. secret;
  otp_verify = λ secret otp now. str_eq secret otp;
  strong = λ password. not (str_eq password "weak");
  is_email = λ email. not (str_eq email "nowhere");
}

abbrev toy : Environment
toy = record { users = memory; tokens = memory; confirmations = memory; crypto = toy_crypto }

decodes : DecodesTokens toy
decodes user_id exp now name early = ap (λ n. some (some n)) (count-letters user_id)

abbrev ada : User
ada = record {
  id = 1;
  name = "ada";
  email = "ada@a";
  password = "Secret1";
  is_active = true;
  otp_secret_key = "K1";
}

abbrev accounts : Accounts toy
accounts = record {
  user_rows = record { contents = ada ∷ []; counter = 2 };
  token_rows = record { contents = record { id = 1; user_id = 2; token = "ii" } ∷ []; counter = 2 };
  confirmation_rows = record { contents = []; counter = 1 };
  mails = [];
}

get_logout-post_login_example :
    let after = (post_login toy 5 (some "ada") (some "Secret1") (request accounts)).1 in
    (after.reply ≡ some (jwt_token "i"))
    × (require_auth toy 6 (some ("Bearer" ∷ "i" ∷ [])) after.store ≡ true)
    × (require_auth toy 7 (some ("bearer" ∷ "i" ∷ [])) (logged_out toy "i" after.store) ≡ false)
    × ((logged_out toy "i" after.store).token_rows.contents ≡ accounts.token_rows.contents)
unfolding find_user
get_logout-post_login_example =
    get_logout-post_login toy 5 6 7 "ada" "Secret1" "bearer" accounts ada decodes
      ((λ e. absurd (omega (arith, e))), tt) refl refl refl refl refl (omega arith)

abbrev empty : Accounts toy
empty = record {
  user_rows = record { contents = ada ∷ []; counter = 2 };
  token_rows = record { contents = []; counter = 1 };
  confirmation_rows = record { contents = []; counter = 1 };
  mails = [];
}

post_register_lem_example :
    post_register toy "salt" "K2"
      (some "bob")
      (some "bob@b")
      (some "Secret2")
      (some "Secret2")
      (request empty)
    ≡ (
      ok tt,
      record {
        store = registered toy "salt" "K2" "bob" "bob@b" "Secret2" empty;
        reply = some (succeeded "User created successfully");
      },
    )
post_register_lem_example =
    post_register_lem toy "salt" "K2" "bob" "bob@b" "Secret2" "Secret2" empty refl refl refl refl
      refl

-- An address that is in use.
refused_test :
    (post_register toy "salt" "K2"
      (some "bob")
      (some "ada@a")
      (some "Secret2")
      (some "Secret2")
      (request empty)).1.reply
    ≡ some (failed "Email already exists")
unfolding post_register success
refused_test = refl

-- A request without a name is answered twice, which is an error, though the user is created.
nameless_test :
    (post_register toy "salt" "K2"
      (some "")
      (some "bob@b")
      (some "Secret2")
      (some "Secret2")
      (request empty)).0
    ≡ err runtime_error
unfolding post_register success
nameless_test = refl

post_login-get_validate_link_example :
    let s1 =
      after toy
        (post_register toy "salt" "K2"
          (some "bob")
          (some "bob@b")
          (some "Secret2")
          (some "Secret2"))
        empty in
    let s2 = after toy (post_generate_link toy "key" 10 (some "bob@b")) s1 in
    let s3 = after toy (get_validate_link toy 3610 "key") s2 in
    ((post_login toy 3611 (some "bob@b") (some "Secret2") (request s2)).1.reply
      ≡ some (failed "Your account is not active"))
    × ((post_login toy 3611 (some "bob@b") (some "Secret2") (request s3)).1.reply
        ≡ some (jwt_token "ii"))
post_login-get_validate_link_example =
    post_login-get_validate_link toy "salt" "K2" "bob" "bob@b" "Secret2" empty
      ((λ e. absurd (omega (arith, e))), tt) refl refl refl refl refl refl "key" 10 3610 refl
      (omega arith) 3611 refl refl

post_login-post_new_password_example :
    let s' =
      after toy
        (post_new_password toy "salt" 10 (some "Secret3") (some "ada") (some "K1"))
        accounts in
    ((post_login toy 11 (some "ada") (some "Secret3") (request s')).1.reply ≡ some (jwt_token "i"))
    × (reject (has_user_id 1) s'.user_rows.contents ≡ [])
unfolding find_user
post_login-post_new_password_example =
    post_login-post_new_password toy "salt" 10 11 "Secret3" "ada" "K1" ada accounts (tt, tt) refl
      refl refl refl refl refl

post_new_password-IsVerified_example :
    (after toy (post_new_password toy "salt" 10 (some "Secret3") (some "ada") none) accounts
      ≡ accounts)
    ⊎ IsVerified toy 10 (some "Secret3") (some "ada") none accounts
post_new_password-IsVerified_example =
    post_new_password-IsVerified toy "salt" 10 (some "Secret3") (some "ada") none accounts
