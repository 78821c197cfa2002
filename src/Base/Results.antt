-- ===== src/Base/Results.antt =====
-- A call that returns a value or throws. `E` is the component's type of exceptions.
use mathlib.Core.Path.{◌≡◌, refl, subst, sym}
use mathlib.Core.Bool.{Bool, true, false}

pub data Result (E A : Type 0) : Type 0 where
  ok : A → Result E A
  err : E → Result E A

-- `if (bad) throw e;`
abbrev pub throw_if : {E : Type 0} → Bool → E → Result E (Unit {0})
throw_if true e = err e
throw_if false e = ok tt

infixl 5 ◌>>=◌
abbrev pub ◌>>=◌ : {E A B : Type 0} → Result E A → (A → Result E B) → Result E B
err e >>= next = err e
ok a >>= next = next a

infixl 5 ◌>>◌
abbrev pub ◌>>◌ : {E B : Type 0} → Result E (Unit {0}) → Result E B → Result E B
first >> second = first >>= λ _. second

-- A chain that returned went through its first call.
pub >>=-eq-ok :
    {E A B : Type 0} (first : Result E A) (next : A → Result E B) {result : B}
    → (first >>= next) ≡ ok result
    → (value : A) × (first ≡ ok value) × (next value ≡ ok result)
>>=-eq-ok (err e) next same = cc
>>=-eq-ok (ok value) next same = (value, refl, same)

pub throw_if-eq-ok :
    {E B : Type 0} (t : Bool) (e : E) (k : Result E B) {b : B}
    → (throw_if t e >> k) ≡ ok b
    → (t ≡ false) × (k ≡ ok b)
throw_if-eq-ok true e k h = cc
throw_if-eq-ok false e k h = (refl, h)

pub ok-injective : {E A : Type 0} {a b : A} → ◌≡◌ {A = Result E A} (ok a) (ok b) → a ≡ b
ok-injective e = cc

pub >>-eq-ok :
    {E B : Type 0} (m : Result E (Unit {0})) (k : Result E B) {b : B}
    → (m >> k) ≡ ok b
    → (m ≡ ok tt) × (k ≡ ok b)
>>-eq-ok (ok tt) k h = (refl, h)
>>-eq-ok (err e) k h = cc

-- A property of what a call returns, if it returns.
unfoldable pub Holds : {E A : Type 0} → (A → Type 0) → Result E A → Type 0
Holds P (err e) = Unit {0}
Holds P (ok a) = P a

pub >>=-Holds :
    {E A B : Type 0} (Q : A → Type 0) (P : B → Type 0) (first : Result E A) (next : A → Result E B)
    → Holds Q first
    → ((a : A) → Q a → Holds P (next a))
    → Holds P (first >>= next)
unfolding Holds
>>=-Holds Q P (err e) next q then_holds = tt
>>=-Holds Q P (ok a) next q then_holds = then_holds a q

pub >>-Holds :
    {E B : Type 0} (P : B → Type 0) (first : Result E (Unit {0})) (rest : Result E B)
    → Holds P rest
    → Holds P (first >> rest)
unfolding Holds
>>-Holds P (err e) rest h = tt
>>-Holds P (ok done) rest h = h

-- Whatever a first call returns.
pub any-Holds : {E A : Type 0} (first : Result E A) → Holds (λ a. Unit {0}) first
unfolding Holds
any-Holds (err e) = tt
any-Holds (ok a) = tt

pub Holds-ok : {E A : Type 0} (P : A → Type 0) (r : Result E A) {a : A} → r ≡ ok a → Holds P r → P a
unfolding Holds
Holds-ok P (err e) same h = absurd (cc)
Holds-ok P (ok b) same h = subst P (ok-injective same) h

pub ok-Holds : {A : Type 0} (E : Type 0) (P : A → Type 0) (a : A) → P a → Holds {E = E} P (ok a)
unfolding Holds
ok-Holds E P a h = h

pub err-Holds : {E A : Type 0} (P : A → Type 0) (e : E) → Holds P (err e)
unfolding Holds
err-Holds P e = tt

-- The call returns, with the property.
unfoldable pub Returns : {E A : Type 0} → (A → Type 0) → Result E A → Type 0
Returns {A} P r = (a : A) × (r ≡ ok a) × P a

pub ok-Returns : {A : Type 0} (E : Type 0) (P : A → Type 0) (a : A) → P a → Returns {E = E} P (ok a)
unfolding Returns
ok-Returns E P a h = (a, refl, h)

pub >>=-Returns :
    {E A B : Type 0} (Q : A → Type 0) (P : B → Type 0) (first : Result E A) (next : A → Result E B)
    → Returns Q first
    → ((a : A) → Q a → Returns P (next a))
    → Returns P (first >>= next)
unfolding Returns
>>=-Returns Q P (err e) next (a, same, q) then_returns = absurd (cc)
>>=-Returns Q P (ok b) next (a, same, q) then_returns =
    then_returns b (subst Q (sym (ok-injective same)) q)

pub >>-Returns :
    {E B : Type 0} (P : B → Type 0) (first : Result E (Unit {0})) (rest : Result E B)
    → first ≡ ok tt
    → Returns P rest
    → Returns P (first >> rest)
>>-Returns P (err e) rest same h = absurd (cc)
>>-Returns P (ok done) rest same h = h

pub Returns-Holds :
    {E A : Type 0} (P Q : A → Type 0) (r : Result E A)
    → Returns P r
    → Holds Q r
    → Returns (λ a. P a × Q a) r
unfolding Returns Holds
Returns-Holds P Q (err e) (a, same, p) q = absurd (cc)
Returns-Holds P Q (ok b) (a, same, p) q = (b, refl, (subst P (sym (ok-injective same)) p, q))

pub Holds-both :
    {E A : Type 0} (P Q : A → Type 0) (r : Result E A)
    → Holds P r
    → Holds Q r
    → Holds (λ a. P a × Q a) r
unfolding Holds
Holds-both P Q (err e) p q = tt
Holds-both P Q (ok a) p q = (p, q)

-- A value is known.
pub the-Returns : {E A : Type 0} {r : Result E A} {a : A} → r ≡ ok a → Returns (λ b. Unit {0}) r
unfolding Returns
the-Returns {a} same = (a, same, tt)

pub Returns-map :
    {E A : Type 0} (P Q : A → Type 0) (r : Result E A)
    → ((a : A) → P a → Q a)
    → Returns P r
    → Returns Q r
unfolding Returns
Returns-map P Q r weaker (a, same, p) = (a, same, weaker a p)

-- What holds anyway holds of what a call returns.
pub Holds-const : {E A : Type 0} (P : Type 0) (r : Result E A) → P → Holds (λ a. P) r
unfolding Holds
Holds-const P (err e) p = tt
Holds-const P (ok a) p = p
