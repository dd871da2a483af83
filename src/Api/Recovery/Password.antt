-- ===== src/Api/Recovery/Password.antt =====
-- The change of a password by a one-time password (owtf/api/handlers/auth.py).

use owtf.Base.{
  ℕ, String, ◌≡◌, refl, sym, ap, ◌∙◌, ◌⊎◌, inl, inr, Bool, true, false, ◌&&◌, Option, none, some,
  List, [], ◌∷◌, arith, str_eq, if◌then◌else◌, Bool-cases, Option-cases, eq_self, reject, map_where,
  find_first, Pairs,
}
use owtf.Base.{All-found}
use owtf.Api.{Exchange, ◌>>◌, success, request, >>_of_ok}
use owtf.Api.Auth.{
  User, Answer, succeeded, jwt_token, Environment, Accounts, find_by, find_user, has_email,
  is_called, post_login,
}
use owtf.Api.Auth.Login.{may_log_in, token_for, post_login_lem}
use owtf.Api.Recovery.{has_user_id, with_password, change_password, new_password, post_new_password}
use owtf.Api.Recovery.Activation.{after}
use owtf.Exceptions.{ok}

module _ {ℓ} {A : Type ℓ} where
  find_first-map_where :
      (p q : A → Bool) (f : A → A) (xs : List A) (x : A)
      → ((y : A) → p (f y) ≡ p y)
      → find_first p xs ≡ some x
      → find_first p (map_where q f xs) ≡ some (if q x then f x else x)
  find_first-map_where p q f [] x h e = absurd (cc)
  find_first-map_where p q f (y ∷ xs) x h e = elim (Bool-cases (p y)) [
    | inl c ↦
        let same : y ≡ x = ground (arith, c) in
        let hit : p (if q y then f y else y) ≡ true = elim (Bool-cases (q y)) [
          | inl d ↦ rw d (h y ∙ c)
          | inr d ↦ rw d c
        ] in
        rw (sym same, hit) refl
    | inr c ↦ ground (arith, find_first-map_where p q f xs x h, h y, c)
  ]

  absent-map_where :
      (p q : A → Bool) (f : A → A) (xs : List A)
      → ((y : A) → p (f y) ≡ p y)
      → find_first p xs ≡ none
      → find_first p (map_where q f xs) ≡ none
  absent-map_where p q f [] h e = refl
  absent-map_where p q f (y ∷ xs) h e = ground (arith, absent-map_where p q f xs h, h y)

  reject-map_where :
      (q : A → Bool) (f : A → A) (xs : List A)
      → ((y : A) → q (f y) ≡ q y)
      → reject q (map_where q f xs) ≡ reject q xs
  reject-map_where q f [] h = refl
  reject-map_where q f (y ∷ xs) h = ground (arith, reject-map_where q f xs h, h y)

-- No two users have one address.
abbrev pub HasOwnEmails : List User → Type 0
HasOwnEmails = Pairs (λ u v. str_eq u.email v.email ≡ false)

found_by_email :
    (p : User → Bool) (us : List User) (u : User)
    → HasOwnEmails us
    → find_first p us ≡ some u
    → find_first (has_email u.email) us ≡ some u
found_by_email p [] u h e = absurd (cc)
found_by_email p (v ∷ us) u h e = elim (Bool-cases (p v)) [
  | inl c ↦ let same : v ≡ u = ground (arith, c) in rw (sym same, eq_self v.email) refl
  | inr c ↦
      let rest : find_first p us ≡ some u = ground (arith, c) in
      let other = All-found (λ w. str_eq v.email w.email ≡ false) p us u h.0 rest in
      ground (arith, other, found_by_email p us u h.1 rest)
]

module _ (env : Environment) where
  find_user-found :
      (text : String) (t : env.users.State) (u : User)
      → find_user env (some text) t ≡ some u
      → (find_first (has_email text) (env.users.rows t) ≡ some u)
        ⊎ ((find_first (has_email text) (env.users.rows t) ≡ none)
            × (find_first (is_called text) (env.users.rows t) ≡ some u))
  unfolding find_user find_by
  find_user-found text t u e =
      elim (Option-cases (find_first (has_email text) (env.users.rows t))) [
        | inl h ↦ let e' = rw (find_user, find_by, h) at e in inr (h, e')
        | inr (v, h) ↦ let e' = rw (find_user, find_by, h) at e in inl (h ∙ e')
      ]

  found_after :
      (text hashed : String) (n : ℕ) (t : env.users.State) (u : User)
      → find_user env (some text) t ≡ some u
      → find_user env (some text) (env.users.update (has_user_id n) (with_password hashed) t)
        ≡ some (if has_user_id n u then with_password hashed u else u)
  unfolding find_user find_by
  found_after text hashed n t u e = elim (find_user-found text t u e) [
    | inl h ↦
        let found =
          find_first-map_where (has_email text) (has_user_id n) (with_password hashed)
            (env.users.rows t) u (λ y. refl) h in
        rw (find_user, find_by, env.users.rows-update, found) refl
    | inr (absent, h) ↦
        let found =
          find_first-map_where (is_called text) (has_user_id n) (with_password hashed)
            (env.users.rows t) u (λ y. refl) h in
        let none_left =
          absent-map_where (has_email text) (has_user_id n) (with_password hashed)
            (env.users.rows t) (λ y. refl) absent in
        rw
          (
            find_user, find_by, env.users.rows-update, none_left, find_by, env.users.rows-update,
            found,
          )
          refl
  ]

  abbrev changed : (salt password : String) → ℕ → Accounts env → Accounts env
  changed salt password id s = record s {
    user_rows =
        env.users.update (has_user_id id) (with_password (env.crypto.hash salt password))
          s.user_rows;
  }

  change_password_lem :
      (email hashed : String) (u : User) (x : Exchange (Accounts env) Answer)
      → find_first (has_email email) (env.users.rows x.store.user_rows) ≡ some u
      → change_password env email hashed x ≡ (
        ok tt,
        record x {
          store = record (x.store) {
            user_rows =
                env.users.update (has_user_id u.id) (with_password hashed) x.store.user_rows;
          };
        },
      )
  unfolding change_password
  change_password_lem email hashed u x found = rw (change_password, found) refl

  -- What changes a password: a strong one, and a one-time password that is verified.
  abbrev pub may_change : (now : ℕ) → (password otp : String) → User → Bool
  may_change now password otp u =
      env.crypto.strong password && env.crypto.otp_verify u.otp_secret_key otp now

  post_new_password_lem :
      (salt : String) (now : ℕ) (password text otp : String) (u : User) (s : Accounts env)
      → HasOwnEmails (env.users.rows s.user_rows)
      → find_user env (some text) s.user_rows ≡ some u
      → may_change now password otp u ≡ true
      → after env (post_new_password env salt now (some password) (some text) (some otp)) s
        ≡ changed salt password u.id s
  unfolding post_new_password new_password success
  post_new_password_lem salt now password text otp u s own found may =
      let is_strong : env.crypto.strong password ≡ true = ground (arith, may) in
      let verified : env.crypto.otp_verify u.otp_secret_key otp now ≡ true = ground (arith, may) in
      let by_email : find_first (has_email u.email) (env.users.rows s.user_rows) ≡ some u =
        elim (find_user-found text s.user_rows u found) [
          | inl h ↦ found_by_email (has_email text) (env.users.rows s.user_rows) u own h
          | inr (absent, h) ↦ found_by_email (is_called text) (env.users.rows s.user_rows) u own h
        ] in
      let hashed = env.crypto.hash salt password in
      let starts : post_new_password env salt now (some password) (some text) (some otp) (request s)
          ≡ (change_password env u.email hashed >> success (succeeded "Password Change Successful"))
              (request s) =
        rw (post_new_password, found, is_strong, new_password, verified) refl in
      let changes =
        >>_of_ok (change_password env u.email hashed)
          (success (succeeded "Password Change Successful")) (request s) _
          (change_password_lem u.email hashed u (request s) by_email) in
      rw (after, starts, changes, success) refl

  refused :
      (salt : String) (now : ℕ) (password text otp : String) (u : User) (s : Accounts env)
      → find_user env (some text) s.user_rows ≡ some u
      → may_change now password otp u ≡ false
      → after env (post_new_password env salt now (some password) (some text) (some otp)) s ≡ s
  unfolding post_new_password new_password success
  refused salt now password text otp u s found may =
      elim (Bool-cases (env.crypto.strong password)) [
        | inr h ↦ rw (after, post_new_password, found, h, success) refl
        | inl h ↦
            let wrong : env.crypto.otp_verify u.otp_secret_key otp now ≡ false =
              ground (arith, may, h) in
            rw (after, post_new_password, found, h, new_password, wrong, success) refl
      ]

  -- What must be so of a request that changes a password.
  pub record IsVerified (now : ℕ) (password text otp : Option String) (s : Accounts env)
      : Type 0 where
    pub user : User
    pub new : String
    pub named : String
    pub one_time : String
    pub has_password : password ≡ some new
    pub has_name : text ≡ some named
    pub has_otp : otp ≡ some one_time
    pub found : find_user env (some named) s.user_rows ≡ some user
    pub may : may_change now new one_time user ≡ true

  no_otp :
      (salt : String) (now : ℕ) (password : String) (text : Option String) (s : Accounts env)
      → after env (post_new_password env salt now (some password) text none) s ≡ s
  unfolding post_new_password new_password success
  no_otp salt now password text s = elim (Bool-cases (env.crypto.strong password)) [
    | inl h ↦ rw (after, post_new_password, h, new_password, success) refl
    | inr h ↦ rw (after, post_new_password, h, success) refl
  ]

  unknown_user :
      (salt : String) (now : ℕ) (password : String) (text otp : Option String) (s : Accounts env)
      → find_user env text s.user_rows ≡ none
      → after env (post_new_password env salt now (some password) text otp) s ≡ s
  unfolding post_new_password new_password success
  unknown_user salt now password text otp s missing =
      elim (Bool-cases (env.crypto.strong password)) [
        | inr h ↦ rw (after, post_new_password, missing, h, success) refl
        | inl h ↦ go otp h
      ]
    where
      go :
          (otp : Option String)
          → env.crypto.strong password ≡ true
          → after env (post_new_password env salt now (some password) text otp) s ≡ s
      go none h = no_otp salt now password text s
      go (some o) h = rw (after, post_new_password, missing, h, new_password, success) refl

  -- Whatever the request to change a password has or has not, it changes nothing unless it has a strong
  -- password, the name or the address of a user, and a one-time password that is that user's.
  pub post_new_password-IsVerified :
      (salt : String) (now : ℕ) (password text otp : Option String) (s : Accounts env)
      → (after env (post_new_password env salt now password text otp) s ≡ s)
        ⊎ IsVerified now password text otp s
  unfolding post_new_password find_user find_by
  post_new_password-IsVerified salt now none text otp s = inl refl
  post_new_password-IsVerified salt now (some password) text none s =
      inl (no_otp salt now password text s)
  post_new_password-IsVerified salt now (some password) none (some otp) s =
      inl (unknown_user salt now password none (some otp) s refl)
  post_new_password-IsVerified salt now (some password) (some text) (some otp) s =
      elim (Option-cases (find_user env (some text) s.user_rows)) [
        | inl missing ↦ inl (unknown_user salt now password (some text) (some otp) s missing)
        | inr (u, found) ↦ elim (Bool-cases (may_change now password otp u)) [
          | inr no_way ↦ inl (refused salt now password text otp u s found no_way)
          | inl may ↦ inr (record {
            user = u;
            new = password;
            named = text;
            one_time = otp;
            has_password = refl;
            has_name = refl;
            has_otp = refl;
            found = found;
            may = may;
          })
        ]
      ]

  -- Where no two users share an address, and for a request with texts that are not empty, by the name or
  -- the address of an active user: the password is changed just when it is strong and the one-time
  -- password is that of the user. Then the user can log in with the new password, given that bcrypt
  -- accepts it for its hash, and no other user has changed; otherwise nothing has.
  pub post_login-post_new_password :
      (salt : String) (now utcnow : ℕ) (password text otp : String) (u : User) (s : Accounts env)
      → HasOwnEmails (env.users.rows s.user_rows)
      → find_user env (some text) s.user_rows ≡ some u
      → str_eq text "" ≡ false
      → str_eq password "" ≡ false
      → u.is_active ≡ true
      → env.crypto.matches password (env.crypto.hash salt password) ≡ true
      → str_eq (env.crypto.hash salt password) "" ≡ false
      → let s' =
          after env (post_new_password env salt now (some password) (some text) (some otp)) s in
        if may_change now password otp u
        then ((post_login env utcnow (some text) (some password) (request s')).1.reply
            ≡ some (jwt_token (token_for env utcnow u)))
          × (reject (has_user_id u.id) (env.users.rows s'.user_rows)
              ≡ reject (has_user_id u.id) (env.users.rows s.user_rows))
        else s' ≡ s
  post_login-post_new_password salt now utcnow password text otp u s own found t p active checks
        hashes =
      elim (Bool-cases (may_change now password otp u)) [
        | inr h ↦ rw h (refused salt now password text otp u s found h)
        | inl h ↦
            let hashed = env.crypto.hash salt password in
            let new : User = with_password hashed u in
            let own_id : has_user_id u.id u ≡ true = ground arith in
            let found' = found_after text hashed u.id s.user_rows u found in
            let found'' = rw own_id at found' in
            let allowed : may_log_in env password new ≡ true = rw (hashes, checks, active) refl in
            let logs_in =
              post_login_lem env utcnow text password (changed salt password u.id s) new t p found''
                allowed in
            rw (h, post_new_password_lem salt now password text otp u s own found h)
              (
                ap (λ x. x.1.reply) logs_in,
                rw env.users.rows-update (
                    reject-map_where (has_user_id u.id) (with_password hashed)
                      (env.users.rows s.user_rows) (λ y. refl)),
              )
      ]
