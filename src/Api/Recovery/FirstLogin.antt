-- ===== src/Api/Recovery/FirstLogin.antt =====
-- The way of a new user to the first login (owtf/api/handlers/auth.py).

use owtf.Base.{
  ℕ, ◌+◌, ◌≤◌, String, ◌≡◌, refl, ap, true, false, some, [], ◌∷◌, ◌++◌, arith, str_eq, leb, eq_self,
  reject, find_first, any, All,
}
use owtf.Api.{success, request}
use owtf.Api.Auth.{
  User, Confirmation, fits_columns, failed, jwt_token, Environment, Accounts, find_by, find_user,
  has_email, new_user, post_register, post_login, log_in, refuse,
}
use owtf.Api.Auth.Login.{may_log_in, token_for, post_login_lem, find_first-append}
use owtf.Api.Auth.Register.{registered, may_register, has_secret, post_register_lem}
use owtf.Api.Recovery.{
  link_lifetime, of_user, has_key, new_confirmation, has_user_id, activated, post_generate_link,
  get_validate_link,
}
use owtf.Api.Recovery.Activation.{
  after, link_for, activation, post_generate_link_lem, get_validate_link_lem, any_of_reject,
  any_of_all, map_where-append_one, none_of_id,
}
use owtf.Db.Table.{KeyFresh}

module _ (env : Environment) (salt secret name email password : String) (s : Accounts env)
    (fresh : KeyFresh env.users (λ u. u.id) s.user_rows) (n : str_eq name "" ≡ false)
    (e : str_eq email "" ≡ false) (p : str_eq password "" ≡ false)
    (new_secret : any (has_secret secret) (env.users.rows s.user_rows) ≡ false)
    (may : may_register env name email password password s ≡ true)
    (fits : fits_columns name email (env.crypto.hash salt password) secret ≡ true) where
  -- The user that the registration creates.
  abbrev pub newcomer : User
  newcomer =
      new_user name email (env.crypto.hash salt password) secret (env.users.next_id s.user_rows)

  abbrev start : Accounts env
  start = registered env salt secret name email password s

  after-post_register :
      after env
        (post_register env salt secret (some name) (some email) (some password) (some password))
        s
      ≡ start
  after-post_register =
      let out =
        post_register_lem env salt secret name email password password s n e p p new_secret in
      let it = rw (may, fits) at out in ap (λ x. x.1.store) it

  email_is_new : any (has_email email) (env.users.rows s.user_rows) ≡ false
  email_is_new = ground (arith, may)

  rows-start : env.users.rows start.user_rows ≡ env.users.rows s.user_rows ++ newcomer ∷ []
  rows-start = env.users.rows-add _ s.user_rows

  found-start : find_first (has_email email) (env.users.rows start.user_rows) ≡ some newcomer
  found-start = rw rows-start (
      find_first-append (has_email email) (env.users.rows s.user_rows) newcomer email_is_new
        (eq_self email))

  module _ (key : String) (now later : ℕ)
      (unused : any (has_key key) (env.confirmations.rows s.confirmation_rows) ≡ false)
      (early : later ≤ now + link_lifetime) where
    abbrev linked : Accounts env
    linked = link_for env key now email newcomer.id start

    abbrev confirmation : Confirmation
    confirmation = new_confirmation key (now + link_lifetime) newcomer.id (
        env.confirmations.next_id
          (env.confirmations.delete (of_user newcomer.id) s.confirmation_rows))

    found-key :
        find_first (has_key key) (env.confirmations.rows linked.confirmation_rows)
        ≡ some confirmation
    found-key =
        rw (env.confirmations.rows-add, env.confirmations.rows-delete)
          (find_first-append (has_key key)
            (reject (of_user newcomer.id) (env.confirmations.rows s.confirmation_rows)) confirmation
            (any_of_reject (has_key key) (of_user newcomer.id)
              (env.confirmations.rows s.confirmation_rows) unused)
            (eq_self key))

    missed : All (λ u. has_user_id newcomer.id u ≡ false) (env.users.rows s.user_rows)
    missed = none_of_id newcomer.id (env.users.rows s.user_rows) fresh

    found-id :
        find_first (has_user_id newcomer.id) (env.users.rows linked.user_rows) ≡ some newcomer
    found-id = rw rows-start (
        find_first-append (has_user_id newcomer.id) (env.users.rows s.user_rows) newcomer
          (any_of_all (has_user_id newcomer.id) (env.users.rows s.user_rows) missed) (ground arith))

    after-get_validate_link :
        after env
          (get_validate_link env later key)
          (after env (post_generate_link env key now (some email)) start)
        ≡ activation env newcomer.id linked
    after-get_validate_link =
        let sends =
          ap (λ x. x.1.store)
            (post_generate_link_lem env key now email newcomer start found-start) in
        let opens =
          get_validate_link_lem env key later confirmation newcomer linked found-key found-id in
        let it : leb later confirmation.expiration_time ≡ true = ground (arith, early) in
        let opens' = rw it at opens in rw sends (ap (λ x. x.1.store) opens')

    rows-activation :
        env.users.rows (activation env newcomer.id linked).user_rows
        ≡ env.users.rows s.user_rows ++ activated newcomer ∷ []
    rows-activation =
        rw (env.users.rows-update, rows-start)
          (map_where-append_one (has_user_id newcomer.id) activated (env.users.rows s.user_rows)
            newcomer missed (ground arith))

    found-active :
        find_user env (some email) (activation env newcomer.id linked).user_rows
        ≡ some (activated newcomer)
    unfolding find_user find_by
    found-active =
        let found =
          find_first-append (has_email email) (env.users.rows s.user_rows) (activated newcomer)
            email_is_new (eq_self email) in
        rw (find_user, find_by, rows-activation, found) refl

    module _ (utcnow : ℕ)
        (checks : env.crypto.matches password (env.crypto.hash salt password) ≡ true)
        (hashes : str_eq (env.crypto.hash salt password) "" ≡ false) where
      not_yet :
          (post_login env utcnow (some email) (some password) (request linked)).1.reply
          ≡ some (failed "Your account is not active")
      unfolding post_login find_user find_by log_in refuse success
      not_yet =
          rw
            (
              post_login, e, p, find_user, find_by, found-start, log_in, hashes, checks, refuse,
              success,
            )
            refl

      -- A user who registers, is sent a link and opens it within the hour can log in with the password
      -- of the registration: the answer is a token. Before the link was opened the login is refused.
      -- This needs a name and an address that are not in use, an address and a password that pass
      -- the tests, a secret and a key that are new, texts that
      -- fit their columns, and that bcrypt accepts the password for its hash.
      pub post_login-get_validate_link :
          let s1 =
            after env
              (post_register env salt secret
                (some name)
                (some email)
                (some password)
                (some password))
              s in
          let s2 = after env (post_generate_link env key now (some email)) s1 in
          let s3 = after env (get_validate_link env later key) s2 in
          ((post_login env utcnow (some email) (some password) (request s2)).1.reply
            ≡ some (failed "Your account is not active"))
          × ((post_login env utcnow (some email) (some password) (request s3)).1.reply
              ≡ some (jwt_token (token_for env utcnow newcomer)))
      post_login-get_validate_link =
          let sends =
            ap (λ x. x.1.store)
              (post_generate_link_lem env key now email newcomer start found-start) in
          let allowed : may_log_in env password (activated newcomer) ≡ true =
            rw (hashes, checks) refl in
          let logs_in =
            post_login_lem env utcnow email password (activation env newcomer.id linked)
              (activated newcomer) e p found-active allowed in
          (
            rw (after-post_register, sends) not_yet,
            rw (after-post_register, after-get_validate_link) (ap (λ x. x.1.reply) logs_in),
          )
