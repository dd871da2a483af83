-- ===== src/Api/Auth/Login.antt =====
-- Logging in and out (owtf/api/handlers/auth.py), and the check of a token
-- (owtf/api/handlers/jwtauth.py).

use owtf.Base.{
  ℕ, ◌+◌, ◌<◌, String, ◌≡◌, refl, ◌≢◌, inl, inr, Bool, true, false, not, ◌&&◌, none, some, List, [],
  ◌∷◌, ◌++◌, arith, str_eq, ◌==◌, Option-cases, eq_self, reject, find_first, any, All,
}
use owtf.Api.{success, request}
use owtf.Api.Auth.{
  User, LoginToken, jwt_token, Environment, Accounts, jwt_exp_delta, find_user, post_login,
  get_logout, require_auth, has_token, new_token, log_in, issue, delete_user_login_token,
  add_user_login_token,
}
use owtf.Db.Table.{KeyFresh}
use owtf.Exceptions.{ok}

module _ {ℓ} {A : Type ℓ} (p : A → Bool) where
  pub find_first-append :
      (xs : List A) (x : A) → any p xs ≡ false → p x ≡ true → find_first p (xs ++ x ∷ []) ≡ some x
  find_first-append [] x none_of_them it = ground arith
  find_first-append (y ∷ xs) x none_of_them it = ground (arith, find_first-append xs x)

reject-fresh :
    (n : ℕ) (ts : List LoginToken) (t : LoginToken)
    → All (λ r. r.id ≢ n) ts
    → t.id ≡ n
    → reject (λ r. r.id == n) (ts ++ t ∷ []) ≡ ts
reject-fresh n [] t fresh e = ground arith
reject-fresh n (r ∷ ts) t fresh e = ground (arith, reject-fresh n ts t fresh.1, fresh.0)

any_token_of_user :
    (user_id : ℕ) (token : String) (ts : List LoginToken)
    → any (has_token token) ts ≡ false
    → any (λ t. t.user_id == user_id && str_eq t.token token) ts ≡ false
any_token_of_user user_id token [] h = refl
any_token_of_user user_id token (t ∷ ts) h = ground (arith, any_token_of_user user_id token ts)

any_last :
    (user_id : ℕ) (ts : List LoginToken) (t : LoginToken)
    → t.user_id ≡ user_id
    → any (λ r. r.user_id == user_id && str_eq r.token t.token) (ts ++ t ∷ []) ≡ true
any_last user_id [] t e = ground (arith, eq_self t.token)
any_last user_id (r ∷ ts) t e = ground (arith, any_last user_id ts t)

module _ (env : Environment) where
  -- PyJWT gives the payload back until the token expires.
  abbrev pub DecodesTokens : Type 0
  DecodesTokens =
      (user_id exp now : ℕ) (name : String)
      → now < exp
      → env.crypto.decode now (env.crypto.encode user_id exp name) ≡ some (some user_id)

  -- What the code asks of a user for a login.
  abbrev pub may_log_in : String → User → Bool
  may_log_in password u =
      not (str_eq u.password "") && env.crypto.matches password u.password && u.is_active

  abbrev pub token_for : ℕ → User → String
  token_for utcnow u = env.crypto.encode u.id (utcnow + jwt_exp_delta) u.name

  abbrev pub logged_in : ℕ → User → Accounts env → Accounts env
  logged_in utcnow u s = record s {
    token_rows = env.tokens.add (new_token u.id (token_for utcnow u)) s.token_rows;
  }

  pub post_login_lem :
      (utcnow : ℕ) (text password : String) (s : Accounts env) (u : User)
      → str_eq text "" ≡ false
      → str_eq password "" ≡ false
      → find_user env (some text) s.user_rows ≡ some u
      → may_log_in password u ≡ true
      → post_login env utcnow (some text) (some password) (request s) ≡ (
        ok tt,
        record { store = logged_in utcnow u s; reply = some (jwt_token (token_for utcnow u)) },
      )
  unfolding post_login log_in issue add_user_login_token success
  post_login_lem utcnow text password s u h k found may =
      rw (post_login, h, k, found, log_in, may, issue, add_user_login_token) refl

  require_auth-logged_in :
      (utcnow now : ℕ) (s : Accounts env) (u : User)
      → DecodesTokens
      → now < utcnow + jwt_exp_delta
      → require_auth env now (some ("Bearer" ∷ token_for utcnow u ∷ [])) (logged_in utcnow u s)
        ≡ true
  unfolding require_auth
  require_auth-logged_in utcnow now s u decodes early =
      rw (require_auth, decodes u.id (utcnow + jwt_exp_delta) now u.name early, env.tokens.rows-add)
        (any_last u.id (env.tokens.rows s.token_rows)
          (new_token u.id (token_for utcnow u) (env.tokens.next_id s.token_rows)) refl)

  abbrev pub logged_out : String → Accounts env → Accounts env
  logged_out token s = (get_logout env (some ("Bearer" ∷ token ∷ [])) (request s)).1.store

  get_logout-logged_in :
      (utcnow : ℕ) (s : Accounts env) (u : User)
      → KeyFresh env.tokens (λ t. t.id) s.token_rows
      → any (has_token (token_for utcnow u)) (env.tokens.rows s.token_rows) ≡ false
      → env.tokens.rows (logged_out (token_for utcnow u) (logged_in utcnow u s)).token_rows
        ≡ env.tokens.rows s.token_rows
  unfolding get_logout delete_user_login_token success
  get_logout-logged_in utcnow s u fresh new =
      let token = token_for utcnow u in
      let row = new_token u.id token (env.tokens.next_id s.token_rows) in
      let found : find_first (has_token token) (env.tokens.rows (logged_in utcnow u s).token_rows)
          ≡ some row =
        rw env.tokens.rows-add (
          find_first-append (has_token token) (env.tokens.rows s.token_rows) row new
            (eq_self token)) in
      rw
        (
          logged_out, get_logout, delete_user_login_token, found, env.tokens.rows-delete,
          env.tokens.rows-add,
        )
        (reject-fresh row.id (env.tokens.rows s.token_rows) row fresh refl)

  require_auth-new :
      (scheme token : String) (now : ℕ) (s : Accounts env)
      → any (has_token token) (env.tokens.rows s.token_rows) ≡ false
      → require_auth env now (some (scheme ∷ token ∷ [])) s ≡ false
  unfolding require_auth
  require_auth-new scheme token now s new = elim (Option-cases (env.crypto.decode now token)) [
    | inl e ↦ ground (arith, e)
    | inr (none, e) ↦ ground (arith, e)
    | inr (some user_id, e) ↦
        ground (arith, e, any_token_of_user user_id token (env.tokens.rows s.token_rows) new)
  ]

  -- What a login does for a user whose token is not in use: it succeeds, the token that it answers
  -- opens every handler until it expires, and after a logout with it never again.
  pub get_logout-post_login :
      (utcnow now later : ℕ) (text password scheme : String) (s : Accounts env) (u : User)
      → DecodesTokens
      → KeyFresh env.tokens (λ t. t.id) s.token_rows
      → any (has_token (token_for utcnow u)) (env.tokens.rows s.token_rows) ≡ false
      → str_eq text "" ≡ false
      → str_eq password "" ≡ false
      → find_user env (some text) s.user_rows ≡ some u
      → may_log_in password u ≡ true
      → now < utcnow + jwt_exp_delta
      → let after = (post_login env utcnow (some text) (some password) (request s)).1 in
        (after.reply ≡ some (jwt_token (token_for utcnow u)))
        × (require_auth env now (some ("Bearer" ∷ token_for utcnow u ∷ [])) after.store ≡ true)
        × (require_auth env later
              (some (scheme ∷ token_for utcnow u ∷ []))
              (logged_out (token_for utcnow u) after.store)
            ≡ false)
        × (env.tokens.rows (logged_out (token_for utcnow u) after.store).token_rows
            ≡ env.tokens.rows s.token_rows)
  get_logout-post_login utcnow now later text password scheme s u decodes fresh new h k found may
        early =
      let e = post_login_lem utcnow text password s u h k found may in
      let back = get_logout-logged_in utcnow s u fresh new in
      rw e (
        refl,
        require_auth-logged_in utcnow now s u decodes early,
        require_auth-new scheme (token_for utcnow u) later
            (logged_out (token_for utcnow u) (logged_in utcnow u s)) (rw back new),
        back,
      )
