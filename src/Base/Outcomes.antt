-- ===== src/Base/Outcomes.antt =====
-- What results that may be missing are like.
use acplt_ks.Base.{Option, none, some, ◌≡◌, refl, Bool, true, false, if◌then◌else◌}

-- a result, if there is one, is as `P` says
unfoldable pub On : {A : Type 0} → (A → Type 0) → Option A → Type 0
On P none = Unit
On P (some a) = P a

pub On-bind :
    {A B : Type 0} (Q : A → Type 0) (P : B → Type 0) (o : Option A) (f : A → Option B)
    → On Q o
    → ((a : A) → Q a → On P (f a))
    → On P (elim o [ none ↦ none | some a ↦ f a ])
unfolding On
On-bind Q P none f h g = tt
On-bind Q P (some a) f h g = g a h

pub On-self : {A : Type 0} (o : Option A) → On (λ a. o ≡ some a) o
unfolding On
On-self none = tt
On-self (some a) = refl

-- two continuations that agree on the one value that there may be
pub if-through :
    {A B : Type 0} (b : Bool) (x : A) (f g : A → Option B)
    → f x ≡ g x
    → elim (if b then none else some x) [ none ↦ none | some a ↦ f a ]
      ≡ elim (if b then none else some x) [ none ↦ none | some a ↦ g a ]
if-through true x f g e = refl
if-through false x f g e = e
