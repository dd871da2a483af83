-- ===== src/Api/Auth/Register.antt =====
-- Registration (owtf/api/handlers/auth.py).

use owtf.Base.{
  String, ◌≡◌, refl, inl, inr, Bool, true, false, not, ◌&&◌, ◌||◌, some, List, [], ◌∷◌, arith,
  str_eq, if◌then◌else◌, Bool-cases, is_some, find_first, any,
}
use owtf.Api.{Exchange, ◌>>◌, success, request, >>_of_ok}
use owtf.Api.Auth.{
  User, Answer, succeeded, failed, Environment, Accounts, find_by, has_email, is_called, new_user,
  post_register, create, add_user, fits_columns,
}
use owtf.Exceptions.{ok, err, database_error}

is_some_found {ℓ} : {A : Type ℓ} (p : A → Bool) (xs : List A) → is_some (find_first p xs) ≡ any p xs
is_some_found p [] = refl
is_some_found p (x ∷ xs) = ground (arith, is_some_found p xs)

any_or3 {ℓ} :
    {A : Type ℓ} (p q r : A → Bool) (xs : List A)
    → any (λ x. p x || q x || r x) xs ≡ (any p xs || any q xs || any r xs)
any_or3 p q r [] = refl
any_or3 p q r (x ∷ xs) = ground (arith, any_or3 p q r xs)

abbrev pub has_secret : String → User → Bool
has_secret secret u = str_eq u.otp_secret_key secret

module _ (env : Environment) where
  abbrev pub registered : (salt secret name email password : String) → Accounts env → Accounts env
  registered salt secret name email password s = record s {
    user_rows =
        env.users.add (new_user name email (env.crypto.hash salt password) secret) s.user_rows;
  }

  add_user_lem :
      (name email hashed secret : String) (x : Exchange (Accounts env) Answer)
      → any (is_called name) (env.users.rows x.store.user_rows) ≡ false
      → any (has_email email) (env.users.rows x.store.user_rows) ≡ false
      → any (has_secret secret) (env.users.rows x.store.user_rows) ≡ false
      → fits_columns name email hashed secret ≡ true
      → add_user env (some name) (some email) hashed secret x ≡ (
        ok tt,
        record x {
          store = record (x.store) {
            user_rows = env.users.add (new_user name email hashed secret) x.store.user_rows;
          };
        },
      )
  unfolding add_user
  add_user_lem name email hashed secret x a b c fits =
      rw
        (
          add_user,
          any_or3 (is_called name) (has_email email) (has_secret secret)
              (env.users.rows x.store.user_rows),
          a,
          b,
          c,
          fits,
        )
        refl

  add_user-too_long :
      (name email hashed secret : String) (x : Exchange (Accounts env) Answer)
      → fits_columns name email hashed secret ≡ false
      → add_user env (some name) (some email) hashed secret x ≡ (err database_error, x)
  unfolding add_user
  add_user-too_long name email hashed secret x long =
      elim (Bool-cases (
        any (λ u. is_called name u || has_email email u || str_eq u.otp_secret_key secret)
          (env.users.rows x.store.user_rows))) [
            | inl h ↦ rw (add_user, h) refl
            | inr h ↦ rw (add_user, h, long) refl
          ]

  -- What the code asks of a registration.
  abbrev pub may_register : (name email password confirm_password : String) → Accounts env → Bool
  may_register name email password confirm_password s =
      str_eq password confirm_password
      && env.crypto.is_email email
      && env.crypto.strong password
      && not (any (is_called name) (env.users.rows s.user_rows))
      && not (any (has_email email) (env.users.rows s.user_rows))

  -- A request with no empty argument, and a secret that no user has: if the passwords agree, the password
  -- is strong, the address is one, and name and address are not in use, the user is created, inactive
  -- and with the hash of the password, unless a text is too long for its column, which is an error of the
  -- database and changes nothing. Otherwise it changes nothing and is answered by a refusal.
  pub post_register_lem :
      (salt secret name email password confirm_password : String) (s : Accounts env)
      → str_eq name "" ≡ false
      → str_eq email "" ≡ false
      → str_eq password "" ≡ false
      → str_eq confirm_password "" ≡ false
      → any (has_secret secret) (env.users.rows s.user_rows) ≡ false
      → let out =
          post_register env salt secret
            (some name)
            (some email)
            (some password)
            (some confirm_password)
            (request s) in
        if may_register name email password confirm_password s
        then (if fits_columns name email (env.crypto.hash salt password) secret
            then out ≡ (
              ok tt,
              record {
                store = registered salt secret name email password s;
                reply = some (succeeded "User created successfully");
              },
            )
            else out ≡ (err database_error, request s))
        else (reason : String) × (out ≡ (ok tt, record { store = s; reply = some (failed reason) }))
  unfolding post_register create find_by success
  post_register_lem salt secret name email password confirm_password s n e p c fresh =
      let named = is_some_found (is_called name) (env.users.rows s.user_rows) in
      let mailed = is_some_found (has_email email) (env.users.rows s.user_rows) in
      elim (Bool-cases (str_eq password confirm_password)) [
        | inr h1 ↦ rw (post_register, n, e, p, c, create, h1, success) (_, refl)
        | inl h1 ↦ elim (Bool-cases (env.crypto.is_email email)) [
          | inr h2 ↦ rw (post_register, n, e, p, c, create, h1, h2, success) (_, refl)
          | inl h2 ↦ elim (Bool-cases (env.crypto.strong password)) [
            | inr h3 ↦ rw (post_register, n, e, p, c, create, h1, h2, h3, success) (_, refl)
            | inl h3 ↦ elim (Bool-cases (any (is_called name) (env.users.rows s.user_rows))) [
              | inr h4 ↦ elim (Bool-cases (any (has_email email) (env.users.rows s.user_rows))) [
                | inr h5 ↦
                    let hashed = env.crypto.hash salt password in
                    let starts : post_register env salt secret (some name) (some email)
                          (some password) (some confirm_password) (request s)
                        ≡ (add_user env (some name) (some email) hashed secret
                              >> success (succeeded "User created successfully"))
                            (request s) =
                      rw
                        (
                          post_register, n, e, p, c, find_by, named, mailed, create, h1, h2, h3, h4,
                          h5,
                        )
                        refl in
                    elim (Bool-cases (fits_columns name email hashed secret)) [
                      | inl fits ↦
                          let adds =
                            >>_of_ok (add_user env (some name) (some email) hashed secret)
                              (success (succeeded "User created successfully")) (request s) _
                              (add_user_lem name email hashed secret (request s) h4 h5 fresh
                                fits) in
                          rw (starts, adds, success, h1, h2, h3, h4, h5, fits) refl
                      | inr long ↦
                          let fails = add_user-too_long name email hashed secret (request s) long in
                          rw (starts, fails, h1, h2, h3, h4, h5, long) refl
                    ]
                | inl h5 ↦
                    rw
                      (
                        post_register, n, e, p, c, find_by, named, mailed, create, h1, h2, h3, h4,
                        h5, success,
                      )
                      (_, refl)
              ]
              | inl h4 ↦
                  rw (post_register, n, e, p, c, find_by, named, create, h1, h2, h3, h4, success)
                    (_, refl)
            ]
          ]
        ]
      ]
