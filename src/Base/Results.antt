-- ===== src/Base/Results.antt =====
-- A computation that may raise `ValueError`: the message is kept.
use Prim.Native.String.{String}
use mathlib.Core.Path.{◌≡◌, refl}
use mathlib.Core.Logic.{◌⊎◌, inl, inr}

pub data Result {ℓ} (X : Type ℓ) : Type ℓ where
  raised : String → Result X
  ok : X → Result X

-- What follows a statement runs only if the statement raises nothing.
infixl 5 ◌>>=◌
abbrev pub ◌>>=◌ {ℓ κ} : {X : Type ℓ} {Y : Type κ} → Result X → (X → Result Y) → Result Y
raised message >>= rest = raised message
ok x >>= rest = rest x

pub ok-injective {ℓ} : {A : Type ℓ} {a b : A} → ok a ≡ ok b → a ≡ b
ok-injective h = cc

-- A chain that returns has an intermediate result.
pub >>=-eq-ok {ℓ κ} :
    {X : Type ℓ} {Y : Type κ} (r : Result X) (rest : X → Result Y) {y : Y}
    → (r >>= rest) ≡ ok y
    → (x : X) × (r ≡ ok x) × (rest x ≡ ok y)
>>=-eq-ok (raised message) rest e = cc
>>=-eq-ok (ok x) rest e = (x, refl, e)

pub >>=_assoc {ℓ κ μ} :
    {A : Type ℓ} {B : Type κ} {C : Type μ} (m : Result A) (f : A → Result B) (g : B → Result C)
    → (m >>= f >>= g) ≡ (m >>= λ a. f a >>= g)
>>=_assoc (ok a) f g = refl
>>=_assoc (raised e) f g = refl

pub Result-cases {ℓ} :
    {A : Type ℓ} (m : Result A) → ((a : A) × (m ≡ ok a)) ⊎ ((e : String) × (m ≡ raised e))
Result-cases (ok a) = inl (a, refl)
Result-cases (raised e) = inr (e, refl)

pub >>=-congr {ℓ κ} :
    {A : Type ℓ} {B : Type κ} (m : Result A) (f g : A → Result B)
    → ((a : A) → f a ≡ g a)
    → (m >>= f) ≡ (m >>= g)
>>=-congr (ok a) f g h = h a
>>=-congr (raised e) f g h = refl

pub >>=-ok {ℓ} : {A : Type ℓ} (m : Result A) → (m >>= ok) ≡ m
>>=-ok (ok a) = refl
>>=-ok (raised e) = refl

-- The computation does not raise.
abbrev pub Returned {ℓ} : {A : Type ℓ} → Result A → Type ℓ
Returned {A} r = (a : A) × (r ≡ ok a)

pub >>=-returns {ℓ κ} :
    {A : Type ℓ} {B : Type κ} (m : Result A) (f : A → Result B)
    → Returned m
    → ((a : A) → Returned (f a))
    → Returned (m >>= f)
>>=-returns (ok a) f h k = k a
>>=-returns (raised e) f h k = cc h.1
