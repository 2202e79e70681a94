-- ===== src/Prelude/Effects.antt =====
-- Code that changes a state, may return an error early (`?`), and may panic (`unwrap`, `assert!`,
-- an index out of bounds). The state that was reached stays in every case.
use mathlib.Core.Bool.{Bool, true, false}
use mathlib.Core.Option.{Option, none, some}
use mathlib.Core.Path.{◌≡◌, ◌∙◌, refl, subst}
use rust_root_task_demo_mi_d.Prelude.Tests.{if◌then◌else◌}
use native.Mathlib.Omega.{arith}

pub data Outcome (E A : Type 0) : Type 0 where
  ok : A → Outcome E A
  err : E → Outcome E A
  panic : Outcome E A

abbrev pub Exec : Type 0 → Type 0 → Type 0 → Type 0
Exec S E A = S → S × Outcome E A

abbrev pub pure : {S E A : Type 0} → A → Exec S E A
pure a s = (s, ok a)

abbrev pub fail : {S E A : Type 0} → E → Exec S E A
fail e s = (s, err e)

abbrev pub abort : {S E A : Type 0} → Exec S E A
abort s = (s, panic)

abbrev pub continue_with : {S E A B : Type 0} → (A → Exec S E B) → S × Outcome E A → S × Outcome E B
continue_with f (s, ok a) = f a s
continue_with f (s, err e) = (s, err e)
continue_with f (s, panic) = (s, panic)

infixl 5 ◌>>=◌ ◌>>◌
abbrev pub ◌>>=◌ : {S E A B : Type 0} → Exec S E A → (A → Exec S E B) → Exec S E B
◌>>=◌ m f s = continue_with f (m s)

abbrev pub ◌>>◌ : {S E B : Type 0} → Exec S E (Unit {0}) → Exec S E B → Exec S E B
m >> k = m >>= λ _. k

-- `assert!(b)`.
abbrev pub assert : {S E : Type 0} → Bool → Exec S E (Unit {0})
assert true s = (s, ok tt)
assert false s = (s, panic)

-- `o.unwrap()` on an option.
abbrev pub unwrap : {S E A : Type 0} → Option A → Exec S E A
unwrap none s = (s, panic)
unwrap (some a) s = (s, ok a)

-- `r.unwrap()` on the result of a call.
abbrev pub unwrap_outcome : {S E F A : Type 0} → S × Outcome E A → S × Outcome F A
unwrap_outcome (s, ok a) = (s, ok a)
unwrap_outcome (s, err e) = (s, panic)
unwrap_outcome (s, panic) = (s, panic)

abbrev pub unwrapped : {S E F A : Type 0} → Exec S E A → Exec S F A
unwrapped m s = unwrap_outcome (m s)

-- `o.ok_or(e)?`.
abbrev pub ok_or : {S E A : Type 0} → Option A → E → Exec S E A
ok_or none e s = (s, err e)
ok_or (some a) e s = (s, ok a)

abbrev pub gets : {S E A : Type 0} → (S → A) → Exec S E A
gets f s = (s, ok (f s))

abbrev pub modify : {S E : Type 0} → (S → S) → Exec S E (Unit {0})
modify f s = (f s, ok tt)

-- A step whose outcome is known, followed by more code.
pub bind_ok :
    {S E A B : Type 0} (m : Exec S E A) (f : A → Exec S E B) {s s' : S} {a : A}
    → m s ≡ (s', ok a)
    → (m >>= f) s ≡ f a s'
bind_ok m f e = rw e

-- Steps that go on alike.
pub continue_with-alike :
    {S E A B : Type 0} (f g : A → Exec S E B) (p : S × Outcome E A)
    → ((a : A) (s : S) → f a s ≡ g a s)
    → continue_with f p ≡ continue_with g p
continue_with-alike f g (s, ok a) h = h a s
continue_with-alike f g (s, err e) h = refl
continue_with-alike f g (s, panic) h = refl

pub continue_with-pure :
    {S E A B : Type 0} (g : A → B) (p : S × Outcome E A) {a : A}
    → p.1 ≡ ok a
    → continue_with (λ x. pure (g x)) p ≡ (p.0, ok (g a))
continue_with-pure g (s, ok b) e = ground arith
continue_with-pure g (s, err x) e = cc
continue_with-pure g (s, panic) e = cc

continue_with-eq-ok :
    {S E A B : Type 0} (f : A → Exec S E B) (p : S × Outcome E A) {s' : S} {b : B}
    → continue_with f p ≡ (s', ok b)
    → (s : S) × (a : A) × (p ≡ (s, ok a)) × (f a s ≡ (s', ok b))
continue_with-eq-ok f (s, ok a) h = (s, a, refl, h)
continue_with-eq-ok f (s, err e) h = cc
continue_with-eq-ok f (s, panic) h = cc

-- Code that succeeded, taken apart into its first step and the rest.
pub >>=-eq-ok :
    {S E A B : Type 0} (m : Exec S E A) (f : A → Exec S E B) (s : S) {s' : S} {b : B}
    → (m >>= f) s ≡ (s', ok b)
    → (t : S) × (a : A) × (m s ≡ (t, ok a)) × (f a t ≡ (s', ok b))
>>=-eq-ok m f s h = continue_with-eq-ok f (m s) h

-- What holds of the value that code returns, where it returns one.
abbrev pub Returns : {S E A : Type 0} → (A → Type 0) → S × Outcome E A → Type 0
Returns P (s, ok a) = P a
Returns P (s, err e) = Unit {0}
Returns P (s, panic) = Unit {0}

continue_with-Returns :
    {S E A B : Type 0} (P : B → Type 0) (f : A → Exec S E B) (p : S × Outcome E A)
    → ((a : A) (s : S) → Returns P (f a s))
    → Returns P (continue_with f p)
continue_with-Returns P f (s, ok a) h = h a s
continue_with-Returns P f (s, err e) h = tt
continue_with-Returns P f (s, panic) h = tt

-- It is enough that the last step sees to it.
pub >>=-Returns :
    {S E A B : Type 0} (P : B → Type 0) (m : Exec S E A) (f : A → Exec S E B) (s : S)
    → ((a : A) (t : S) → Returns P (f a t))
    → Returns P ((m >>= f) s)
>>=-Returns P m f s h = continue_with-Returns P f (m s) h

pub Returns-ok :
    {S E A : Type 0} (P : A → Type 0) (p : S × Outcome E A) {s : S} {a : A}
    → Returns P p
    → p ≡ (s, ok a)
    → P a
Returns-ok P p h e = subst (Returns P) e h

pub Returns-mono :
    {S E A : Type 0} (P Q : A → Type 0) (p : S × Outcome E A)
    → ((a : A) → P a → Q a)
    → Returns P p
    → Returns Q p
Returns-mono P Q (s, ok a) f h = f a h
Returns-mono P Q (s, err e) f h = tt
Returns-mono P Q (s, panic) f h = tt

-- Code that leaves a part of the state as it is.
abbrev pub Keeps : {S E A X : Type 0} → (S → X) → Exec S E A → Type 0
Keeps {S} part m = (s : S) → part (m s).0 ≡ part s

continue_with-Keeps :
    {S E A B X : Type 0} (part : S → X) (f : A → Exec S E B) (p : S × Outcome E A) (s : S)
    → part p.0 ≡ part s
    → ((a : A) → Keeps part (f a))
    → part (continue_with f p).0 ≡ part s
continue_with-Keeps part f (t, ok a) s h k = k a t ∙ h
continue_with-Keeps part f (t, err e) s h k = h
continue_with-Keeps part f (t, panic) s h k = h

pub >>=-Keeps :
    {S E A B X : Type 0} (part : S → X) (m : Exec S E A) (f : A → Exec S E B)
    → Keeps part m
    → ((a : A) → Keeps part (f a))
    → Keeps part (m >>= f)
>>=-Keeps part m f h k s = continue_with-Keeps part f (m s) s (h s) k

unwrap_outcome-part :
    {S E A X : Type 0} (F : Type 0) (part : S → X) (p : S × Outcome E A)
    → part (unwrap_outcome {F = F} p).0 ≡ part p.0
unwrap_outcome-part F part (s, ok a) = refl
unwrap_outcome-part F part (s, err e) = refl
unwrap_outcome-part F part (s, panic) = refl

pub unwrapped-Keeps :
    {S E A X : Type 0} (F : Type 0) (part : S → X) (m : Exec S E A)
    → Keeps part m
    → Keeps part (unwrapped {F = F} m)
unwrapped-Keeps F part m h s = unwrap_outcome-part F part (m s) ∙ h s

pub unwrap-Keeps :
    {S A X : Type 0} (E : Type 0) (part : S → X) (o : Option A)
    → Keeps part (unwrap {S = S} {E = E} o)
unwrap-Keeps E part none s = refl
unwrap-Keeps E part (some a) s = refl

pub if-Keeps :
    {S E A X : Type 0} (part : S → X) (b : Bool) (m n : Exec S E A)
    → Keeps part m
    → Keeps part n
    → Keeps part (if b then m else n)
if-Keeps part true m n h k = h
if-Keeps part false m n h k = k

continue_with-After :
    {S E A B : Type 0} (Q : A → Type 0) (P : B → Type 0) (f : A → Exec S E B) (p : S × Outcome E A)
    → Returns Q p
    → ((a : A) → Q a → (s : S) → Returns P (f a s))
    → Returns P (continue_with f p)
continue_with-After Q P f (s, ok a) q h = h a q s
continue_with-After Q P f (s, err e) q h = tt
continue_with-After Q P f (s, panic) q h = tt

-- The same, where the last step needs what holds of the first one's value.
pub >>=-After :
    {S E A B : Type 0} (Q : A → Type 0) (P : B → Type 0) (m : Exec S E A) (f : A → Exec S E B)
    (s : S)
    → Returns Q (m s)
    → ((a : A) → Q a → (t : S) → Returns P (f a t))
    → Returns P ((m >>= f) s)
>>=-After Q P m f s q h = continue_with-After Q P f (m s) q h
