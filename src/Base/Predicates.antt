-- ===== src/Base/Predicates.antt =====
-- Predicates on every entry of a list, and on every pair of entries.
use mathlib.Core.List.{List, [], ◌∷◌, ◌++◌}

abbrev pub All {ℓ κ} : {A : Type ℓ} → (A → Type κ) → List A → Type κ
All P [] = Unit
All P (x ∷ xs) = P x × All P xs

-- Each entry is related to all that come after it.
abbrev pub Pairs {ℓ κ} : {A : Type ℓ} → (A → A → Type κ) → List A → Type κ
Pairs R [] = Unit
Pairs R (x ∷ xs) = All (R x) xs × Pairs R xs

pub All_mono {ℓ κ κ'} :
    {A : Type ℓ} {P : A → Type κ} {Q : A → Type κ'}
    → ((a : A) → P a → Q a)
    → (xs : List A) → All P xs
    → All Q xs
All_mono f [] h = tt
All_mono f (x ∷ xs) h = (f x h.0, All_mono f xs h.1)

pub All_zip {ℓ κ κ' κ''} :
    {A : Type ℓ} {P : A → Type κ} {Q : A → Type κ'} {R : A → Type κ''}
    → ((a : A) → P a → Q a → R a)
    → (xs : List A) → All P xs
    → All Q xs
    → All R xs
All_zip f [] h k = tt
All_zip f (x ∷ xs) h k = (f x h.0 k.0, All_zip f xs h.1 k.1)

module _ {ℓ κ} {A : Type ℓ} (P : A → Type κ) where
  pub All-extract :
      (xs : List A) (y : A) (ys : List A) → All P (xs ++ y ∷ ys) → P y × All P (xs ++ ys)
  All-extract [] y ys h = h
  All-extract (x ∷ xs) y ys h = let rest = All-extract xs y ys h.1 in (rest.0, (h.0, rest.1))

module _ {ℓ κ} {A : Type ℓ} (R : A → A → Type κ) (sym : (a b : A) → R a b → R b a) where
  pub Pairs-extract :
      (xs : List A) (y : A) (ys : List A)
      → Pairs R (xs ++ y ∷ ys)
      → All (R y) (xs ++ ys) × Pairs R (xs ++ ys)
  Pairs-extract [] y ys h = h
  Pairs-extract (x ∷ xs) y ys h =
      let rest = Pairs-extract xs y ys h.1 in
      let here = All-extract (R x) xs y ys h.0 in ((sym x y here.0, rest.0), (here.1, rest.1))

module _ {ℓ κ} {A : Type ℓ} (P : A → Type κ) where
  pub All-append : (xs ys : List A) → All P xs → All P ys → All P (xs ++ ys)
  All-append [] ys h k = k
  All-append (x ∷ xs) ys h k = (h.0, All-append xs ys h.1 k)

module _ {ℓ κ} {A : Type ℓ} (R : A → A → Type κ) where
  pub Pairs-append :
      (xs ys : List A) → Pairs R xs → Pairs R ys → All (λ x. All (R x) ys) xs → Pairs R (xs ++ ys)
  Pairs-append [] ys h k c = k
  Pairs-append (x ∷ xs) ys h k c = (All-append (R x) xs ys h.0 c.0, Pairs-append xs ys h.1 k c.1)
