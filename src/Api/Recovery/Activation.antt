-- ===== src/Api/Recovery/Activation.antt =====
-- From a registration to the first login (owtf/api/handlers/auth.py).

use owtf.Base.{
  ℕ, ◌+◌, String, ◌≡◌, refl, ◌≢◌, inl, inr, Bool, true, false, some, List, [], ◌∷◌, ◌++◌, arith,
  leb, if◌then◌else◌, Bool-cases, reject, map_where, find_first, any, All,
}
use owtf.Api.{Exchange, ◌>>◌, success, request, >>_of_ok}
use owtf.Api.Auth.{
  User, Confirmation, activation_link, Answer, succeeded, link_expired, Environment, Accounts, Web,
  find_by, has_email,
}
use owtf.Api.Recovery.{
  link_lifetime, of_user, has_key, new_confirmation, has_user_id, activated, remove_previous_all,
  add_confirm_password, send_email, send_link, post_generate_link, activate_user, validate,
  get_validate_link,
}
use owtf.Exceptions.{ok}

module _ {ℓ} {A : Type ℓ} where
  pub any_of_reject :
      (p q : A → Bool) (xs : List A) → any p xs ≡ false → any p (reject q xs) ≡ false
  any_of_reject p q [] h = refl
  any_of_reject p q (x ∷ xs) h = ground (arith, any_of_reject p q xs)

  pub map_where-append_one :
      (p : A → Bool) (f : A → A) (xs : List A) (x : A)
      → All (λ y. p y ≡ false) xs
      → p x ≡ true
      → map_where p f (xs ++ x ∷ []) ≡ xs ++ f x ∷ []
  map_where-append_one p f [] x missed it = ground (arith, it)
  map_where-append_one p f (y ∷ xs) x missed it =
      ground (arith, map_where-append_one p f xs x missed.1 it, missed.0)

pub none_of_id :
    (n : ℕ) (us : List User) → All (λ u. u.id ≢ n) us → All (λ u. has_user_id n u ≡ false) us
none_of_id n [] h = tt
none_of_id n (u ∷ us) h = (ground (arith, h.0), none_of_id n us h.1)

pub any_of_all {ℓ} :
    {A : Type ℓ} (p : A → Bool) (xs : List A) → All (λ x. p x ≡ false) xs → any p xs ≡ false
any_of_all p [] h = refl
any_of_all p (x ∷ xs) h = ground (arith, h.0, any_of_all p xs h.1)

module _ (env : Environment) where
  -- The state after a request.
  abbrev pub after : Web env (Unit {0}) → Accounts env → Accounts env
  after handler s = (handler (request s)).1.store

  abbrev pub link_for :
      (key : String) (now : ℕ) → (email : String) → ℕ → Accounts env → Accounts env
  link_for key now email id s = record s {
    confirmation_rows =
        env.confirmations.add (new_confirmation key (now + link_lifetime) id)
          (env.confirmations.delete (of_user id) s.confirmation_rows);
    mails = s.mails ++ activation_link email key ∷ [];
  }

  pub post_generate_link_lem :
      (key : String) (now : ℕ) (email : String) (u : User) (s : Accounts env)
      → find_first (has_email email) (env.users.rows s.user_rows) ≡ some u
      → post_generate_link env key now (some email) (request s) ≡ (
        ok tt,
        record {
          store = link_for key now email u.id s;
          reply = some (succeeded "Email send successful");
        },
      )
  unfolding post_generate_link find_by send_link remove_previous_all add_confirm_password send_email
      success
  post_generate_link_lem key now email u s found =
      rw
        (
          post_generate_link, find_by, found, send_link, remove_previous_all, add_confirm_password,
          send_email, success,
        )
        refl

  abbrev pub activation : ℕ → Accounts env → Accounts env
  activation id s = record s { user_rows = env.users.update (has_user_id id) activated s.user_rows }

  activate_user_lem :
      (id : ℕ) (u : User) (x : Exchange (Accounts env) Answer)
      → find_first (has_user_id id) (env.users.rows x.store.user_rows) ≡ some u
      → activate_user env id x ≡ (ok tt, record x { store = activation id x.store })
  unfolding activate_user
  activate_user_lem id u x found = rw (activate_user, found) refl

  -- A link that is found opens the account of its user while it lives.
  pub get_validate_link_lem :
      (key : String) (now : ℕ) (c : Confirmation) (u : User) (s : Accounts env)
      → find_first (has_key key) (env.confirmations.rows s.confirmation_rows) ≡ some c
      → find_first (has_user_id c.user_id) (env.users.rows s.user_rows) ≡ some u
      → get_validate_link env now key (request s) ≡ (
        ok tt,
        if leb now c.expiration_time
            then record {
              store = activation c.user_id s;
              reply = some (succeeded "Email Verified");
            }
            else record { store = s; reply = some (link_expired u.email) },
      )
  unfolding get_validate_link validate success
  get_validate_link_lem key now c u s found owner = elim (Bool-cases (leb now c.expiration_time)) [
    | inl h ↦
        let starts : get_validate_link env now key (request s)
            ≡ (activate_user env c.user_id >> success (succeeded "Email Verified")) (request s) =
          rw (get_validate_link, found, validate, h) refl in
        let activates =
          >>_of_ok (activate_user env c.user_id) (success (succeeded "Email Verified")) (request s)
            _ (activate_user_lem c.user_id u (request s) owner) in
        rw (h, starts, activates, success) refl
    | inr h ↦
        let starts : get_validate_link env now key (request s)
            ≡ (ok tt, record { store = s; reply = some (link_expired u.email) }) =
          rw (get_validate_link, found, validate, h, owner, success) refl in
        rw (h, starts) refl
  ]
