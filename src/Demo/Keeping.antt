-- ===== src/Demo/Keeping.antt =====
-- What the parts of the demo keep of the counter of payments, however they end.
use cronos_stream.Prelude.{
  String, Bool, true, false, not, ◌&&◌, ◌≡◌, ◌≢◌, Option, none, some, leb, ◌==◌, nat_has_eq,
  string_has_eq, if◌then◌else◌,
}
use mathlib.Core.Path.{subst}
use cronos_stream.Python.{
  Outcome, ok, raised, Exn, app, exception, interrupt, Action, pure, from_outcome, ◌>>=◌, ◌>>◌,
  when, choose, >>=-elim,
}
use cronos_stream.World.{Trace, Effect}
use cronos_stream.Demo.{Screen, Drawing, draw, Console, outward, payment_threshold}

-- A channel that `if LAST_CHANNEL_ID:` takes for one.
abbrev pub is_named : Option String → Bool
is_named none = false
is_named (some c) = not (c == "")

-- The threshold is not reached, or no channel is known.
abbrev pub IsSettled : Console → Type 0
IsSettled s = leb payment_threshold s.payment_count && is_named s.last_channel_id ≡ false

-- What holds behind an exception: the same, but for the `ValueError` of an answer that is no pair,
-- and the refusal of a drawing.
abbrev pub Excused : Exn → Console → Type 0
Excused (app kind message) s = IsSettled s
Excused (exception name) s = name ≢ "ValueError" → name ≢ "ConsoleError" → IsSettled s
Excused (interrupt name) s = IsSettled s

abbrev pub Kept : {A : Type 0} → Outcome A × Console → Type 0
Kept (ok a, s) = IsSettled s
Kept (raised e, s) = Excused e s

abbrev pub Keeps : {A : Type 0} → Action Console A → Type 0
Keeps m = (s : Console) → IsSettled s → Kept (m s)

pub excused : (e : Exn) (s : Console) → IsSettled s → Excused e s
excused (app kind message) s h = h
excused (exception name) s h = λ _ _. h
excused (interrupt name) s h = h

pub Kept-raised :
    {A : Type 0} (p : Outcome A × Console) (e : Exn) → p.0 ≡ raised e → Kept p → Excused e p.1
Kept-raised (ok a, s) e h k = cc
Kept-raised (raised x, s) e h k = subst (λ y. Excused y s) {x = x} {y = e} (cc) k

pub Kept-ok : {A : Type 0} (p : Outcome A × Console) (a : A) → p.0 ≡ ok a → Kept p → IsSettled p.1
Kept-ok (ok a, s) b h k = k
Kept-ok (raised e, s) b h k = cc

pub Keeps->>= :
    {A B : Type 0} (m : Action Console A) (f : A → Action Console B)
    → Keeps m
    → ((a : A) → Keeps (f a))
    → Keeps (m >>= f)
Keeps->>= m f h k s settled =
    >>=-elim Kept m f s (λ e r. Kept-raised (m s) e r (h s settled))
      λ a r. k a (m s).1 (Kept-ok (m s) a r (h s settled))

pub Keeps-from_outcome : {A : Type 0} (r : Outcome A) → Keeps (from_outcome r)
Keeps-from_outcome (ok a) s h = h
Keeps-from_outcome (raised e) s h = excused e s h

pub Keeps-draw : (screen : Screen) (d : Drawing) → Keeps (draw screen d)
Keeps-draw screen d =
    Keeps-from_outcome (if screen.draws d then ok tt else raised (exception "ConsoleError"))

pub Keeps-choose :
    {A : Type 0} (b : Bool) (m k : Action Console A) → Keeps m → Keeps k → Keeps (choose b m k)
Keeps-choose true m k h h' = h
Keeps-choose false m k h h' = h'

pub Keeps-pure : {A : Type 0} (a : A) → Keeps (pure a)
Keeps-pure a s h = h

pub Keeps-when : (b : Bool) (m : Action Console (Unit {0})) → Keeps m → Keeps (when b m)
Keeps-when true m h = h
Keeps-when false m h = λ s k. k

outward-Kept :
    {A : Type 0} (r : Outcome A) (past : Trace) (s : Console)
    → IsSettled s
    → Kept (r, record s { trace = past })
outward-Kept (ok a) past s h = h
outward-Kept (raised e) past s h = excused e (record s { trace = past }) h

pub Keeps-outward : {A : Type 0} (m : Effect A) → Keeps (outward m)
Keeps-outward m s h = outward-Kept (m s.trace).0 (m s.trace).1 s h

-- Reading a value first changes nothing.
pub Keeps-read :
    {A B : Type 0} (r : Outcome A) (f : A → Action Console B)
    → ((a : A) → Keeps (f a))
    → Keeps (from_outcome r >>= f)
Keeps-read r f h = Keeps->>= (from_outcome r) f (Keeps-from_outcome r) h

pub Keeps->> :
    {B : Type 0} (m : Action Console (Unit {0})) (k : Action Console B)
    → Keeps m
    → Keeps k
    → Keeps (m >> k)
Keeps->> m k h h' = Keeps->>= m (λ _. k) h (λ _. h')
