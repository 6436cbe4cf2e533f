-- ===== src/Python/Exceptions.antt =====
-- Exceptions as values, and actions on a state. The state comes back after a raise too, since what
-- was written stays written.
use cronos_stream.Prelude.{String, Bool, true, false, none, some, arith, ◌≡◌, refl, ◌⊎◌, inl, inr}

-- The classes of lib/errors/app_error.py.
pub data AppErrorKind : Type 0 where
  app_error config_error network_error llm_error validation_error : AppErrorKind

-- An `AppError` with its message, any other `Exception` by its type's name, and a `BaseException`
-- that is no `Exception` (a cancelled task, an interrupt from the keyboard).
pub data Exn : Type 0 where
  app : AppErrorKind → String → Exn
  exception : String → Exn
  interrupt : String → Exn

pub data Outcome (A : Type 0) : Type 0 where
  ok : A → Outcome A
  raised : Exn → Outcome A

abbrev pub Action : Type 0 → Type 0 → Type 0
Action S A = S → Outcome A × S

abbrev pub pure : {S A : Type 0} → A → Action S A
pure a s = (ok a, s)

abbrev pub raise : {S A : Type 0} → Exn → Action S A
raise e s = (raised e, s)

-- The result of code without effects.
abbrev pub from_outcome : {S A : Type 0} → Outcome A → Action S A
from_outcome r s = (r, s)

infixl 5 ◌>>=◌ ◌>>◌
abbrev pub ◌>>=◌ : {S A B : Type 0} → Action S A → (A → Action S B) → Action S B
◌>>=◌ m f s = let (r, s') = m s in elim r [ ok a ↦ f a s' | raised e ↦ (raised e, s') ]

abbrev pub ◌>>◌ : {S B : Type 0} → Action S (Unit {0}) → Action S B → Action S B
m >> k = m >>= λ _. k

abbrev pub gets : {S A : Type 0} → (S → A) → Action S A
gets f s = (ok (f s), s)

abbrev pub modify : {S : Type 0} → (S → S) → Action S (Unit {0})
modify f s = (ok tt, f s)

abbrev pub when : {S : Type 0} → Bool → Action S (Unit {0}) → Action S (Unit {0})
when true m = m
when false m = pure tt

abbrev pub choose : {S A : Type 0} → Bool → Action S A → Action S A → Action S A
choose true m k = m
choose false m k = k

-- `try: m  except Exception as e: handler(e)`
abbrev pub catch : {S A : Type 0} → Action S A → (Exn → Action S A) → Action S A
catch m handler s =
    let (r, s') = m s in
    elim r [
      | ok a ↦ (ok a, s')
      | raised e ↦ elim e [
        | app kind message ↦ handler (app kind message) s'
        | exception name ↦ handler (exception name) s'
        | interrupt name ↦ (raised (interrupt name), s')
      ]
    ]

-- `try: body  finally: cleanup`
abbrev pub finally : {S A : Type 0} → Action S A → Action S (Unit {0}) → Action S A
finally body cleanup s =
    let (r, s') = body s in
    let (c, s'') = cleanup s' in elim c [ ok _ ↦ (r, s'') | raised e ↦ (raised e, s'') ]

-- The same on results, for code without effects.
abbrev pub bind_outcome : {A B : Type 0} → Outcome A → (A → Outcome B) → Outcome B
bind_outcome (ok a) f = f a
bind_outcome (raised e) f = raised e

abbrev pub is_ok : {A : Type 0} → Outcome A → Bool
is_ok (ok a) = true
is_ok (raised e) = false

-- Inversion of a result that is built from another.
pub bind_outcome-eq-ok :
    {A B : Type 0} (m : Outcome A) (f : A → Outcome B) {b : B}
    → bind_outcome m f ≡ ok b
    → (a : A) × (m ≡ ok a) × (f a ≡ ok b)
bind_outcome-eq-ok (ok a) f h = (a, refl, h)
bind_outcome-eq-ok (raised e) f h = cc

pub ok_injective : {A : Type 0} (a b : A) → ok a ≡ ok b → a ≡ b
ok_injective a b h = cc

-- The value of a result that is one.
pub is_ok-value : {A : Type 0} (r : Outcome A) → is_ok r ≡ true → (a : A) × (r ≡ ok a)
is_ok-value (ok a) h = (a, refl)
is_ok-value (raised e) h = cc

-- A sequence of two actions stops at the first, or goes on behind it.
pub >>-cases :
    {S B : Type 0} (m : Action S (Unit {0})) (k : Action S B) (s : S)
    → ((e : Exn) × ((m >> k) s ≡ (raised e, (m s).1)))
      ⊎ (((m s).0 ≡ ok tt) × ((m >> k) s ≡ k (m s).1))
>>-cases {S} {B} m k s = go (m s)
  where
    go :
        (p : Outcome (Unit {0}) × S)
        → ((e : Exn) × ((elim (p.0) as (λ _. Outcome B × S) [
          | ok a ↦ k p.1
          | raised e ↦ (raised e, p.1)
        ])
              ≡ (raised e, p.1)))
          ⊎ ((p.0 ≡ ok tt)
              × ((elim (p.0) as (λ _. Outcome B × S) [ ok a ↦ k p.1 | raised e ↦ (raised e, p.1) ])
                  ≡ k p.1))
    go (ok a, s') = inr (refl, refl)
    go (raised x, s') = inl (x, refl)

-- No interrupt: what `except Exception` would catch, or a value.
abbrev pub IsContained : {A : Type 0} → Outcome A → Type 0
IsContained (ok a) = Unit
IsContained (raised (app kind message)) = Unit
IsContained (raised (exception name)) = Unit
IsContained (raised (interrupt name)) = ⊥

pub bind_outcome-IsContained :
    {A B : Type 0} (m : Outcome A) (f : A → Outcome B)
    → IsContained m
    → ((a : A) → IsContained (f a))
    → IsContained (bind_outcome m f)
bind_outcome-IsContained (ok a) f h k = k a
bind_outcome-IsContained (raised (app kind message)) f h k = tt
bind_outcome-IsContained (raised (exception name)) f h k = tt
bind_outcome-IsContained (raised (interrupt name)) f h k = h

-- What holds of a raise and of every way to go on holds of a sequence of two actions.
pub >>=-elim :
    {S A B : Type 0} (Q : Outcome B × S → Type 0) (m : Action S A) (f : A → Action S B) (s : S)
    → ((e : Exn) → (m s).0 ≡ raised e → Q (raised e, (m s).1))
    → ((a : A) → (m s).0 ≡ ok a → Q (f a (m s).1))
    → Q ((m >>= f) s)
>>=-elim {S} {A} {B} Q m f s = go (m s)
  where
    go :
        (p : Outcome A × S)
        → ((e : Exn) → p.0 ≡ raised e → Q (raised e, p.1))
        → ((a : A) → p.0 ≡ ok a → Q (f a p.1))
        → Q (elim (p.0) as (λ _. Outcome B × S) [ ok a ↦ f a p.1 | raised e ↦ (raised e, p.1) ])
    go (ok a, s') h k = k a refl
    go (raised e, s') h k = h e refl

-- Inversion of a sequence, and of one whose exceptions are caught and told by `none`.
pub >>=-eq-ok :
    {S A B : Type 0} (m : Action S A) (f : A → Action S B) (s : S) {b : B} {t : S}
    → (m >>= f) s ≡ (ok b, t)
    → (a : A) × (m s ≡ (ok a, (m s).1)) × (f a (m s).1 ≡ (ok b, t))
>>=-eq-ok {S} {A} {B} m f s {b} {t} = go (m s)
  where
    go :
        (p : Outcome A × S)
        → ◌≡◌ {A = Outcome B × S}
            (elim (p.0) as (λ _. Outcome B × S) [ ok a ↦ f a p.1 | raised e ↦ (raised e, p.1) ])
            (ok b, t)
        → (a : A) × (p ≡ (ok a, p.1)) × (f a p.1 ≡ (ok b, t))
    go (ok a, s') h = (a, refl, h)
    go (raised e, s') h = cc

pub attempt-eq-some :
    {S A : Type 0} (m : Action S A) (s : S) {a : A} {t : S}
    → catch (m >>= λ x. pure (some x)) (λ e. pure none) s ≡ (ok (some a), t)
    → m s ≡ (ok a, t)
attempt-eq-some {S} {A} m s {a} {t} = go (m s)
  where
    go :
        (p : Outcome A × S)
        → catch ((λ _. p) >>= λ x. pure (some x)) (λ e. pure none) s ≡ (ok (some a), t)
        → p ≡ (ok a, t)
    go (ok x, s') h = ground arith
    go (raised (app kind message), s') h = cc
    go (raised (exception name), s') h = cc
    go (raised (interrupt name), s') h = cc
