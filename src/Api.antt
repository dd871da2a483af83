-- ===== src/Api.antt =====
-- What the handlers share (owtf/api/handlers/base.py): a request is answered once. The web framework
-- lets a handler run on after its answer, and raises an error when it answers again.

use owtf.Base.{◌≡◌, refl, Bool, if◌then◌else◌, Option, none, some}
use owtf.Exceptions.{Result, ok, err, Error, runtime_error, api_error}
pub mod Auth
pub mod Recovery
pub mod Work

-- The state that a request works on, and the answer that went out.
pub record Exchange (S R : Type 0) : Type 0 where
  pub store : S
  pub reply : Option R

-- A handler may raise an exception; what it has changed by then stays.
abbrev pub Handler : Type 0 → Type 0 → Type 0 → Type 0
Handler S R A = Exchange S R → Result A × Exchange S R

module _ {S R : Type 0} where
  abbrev pub and_then :
      {A B : Type 0} → Result A × Exchange S R → (A → Handler S R B) → Result B × Exchange S R
  and_then (err e, y) f = (err e, y)
  and_then (ok a, y) f = f a y

  infixl 10 ◌>>=◌ ◌>>◌
  abbrev pub ◌>>=◌ : {A B : Type 0} → Handler S R A → (A → Handler S R B) → Handler S R B
  ◌>>=◌ m f x = and_then (m x) f

  abbrev pub ◌>>◌ : {B : Type 0} → Handler S R (Unit {0}) → Handler S R B → Handler S R B
  m >> k = m >>= λ _. k

  -- A statement that returns is followed by the next one.
  pub >>_of_ok :
      {B : Type 0} (m : Handler S R (Unit {0})) (k : Handler S R B) (x y : Exchange S R)
      → m x ≡ (ok tt, y)
      → (m >> k) x ≡ k y
  >>_of_ok m k x y e = rw e refl

  abbrev pub done : Handler S R (Unit {0})
  done x = (ok tt, x)

  abbrev pub raise : {A : Type 0} → Error → Handler S R A
  raise e x = (err e, x)

  -- `self.success(data)`: a second answer is a RuntimeError, and the client keeps the first.
  unfoldable pub success : R → Handler S R (Unit {0})
  success r x = elim x.reply [
    | none ↦ (ok tt, record x { reply = some r })
    | some _ ↦ (err runtime_error, x)
  ]

  -- A statement that changes the store.
  abbrev pub change : (S → S) → Handler S R (Unit {0})
  change f x = (ok tt, record x { store = f x.store })

  -- A query of the store.
  abbrev pub ask : {A : Type 0} → (S → A) → Handler S R A
  ask f x = (ok (f x.store), x)

  -- A function of the managers, which may raise.
  abbrev pub attempt : (S → Result S) → Handler S R (Unit {0})
  attempt f x = elim (f x.store) [ err e ↦ (err e, x) | ok s ↦ (ok tt, record x { store = s }) ]

  -- A function of the managers that may raise after it has changed the store.
  abbrev pub perform : (S → Result (Unit {0}) × S) → Handler S R (Unit {0})
  perform f x = let (ends, s) = f x.store in (ends, record x { store = s })

  abbrev pub query : {A : Type 0} → (S → Result A) → Handler S R A
  query f x = (f x.store, x)

  -- `try: ... except ...: raise APIError(400, ...)`
  abbrev pub refused :
      (Error → Bool) → Result (Unit {0}) × Exchange S R → Result (Unit {0}) × Exchange S R
  refused caught (ok a, y) = (ok a, y)
  refused caught (err e, y) = (err (if caught e then api_error else e), y)

  abbrev pub refuse_if : (Error → Bool) → Handler S R (Unit {0}) → Handler S R (Unit {0})
  refuse_if caught m x = refused caught (m x)

-- A request as it comes in.
abbrev pub request : {S R : Type 0} → S → Exchange S R
request s = record { store = s; reply = none }
