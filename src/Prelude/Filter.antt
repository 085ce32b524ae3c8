-- ===== src/Prelude/Filter.antt =====
-- Lists under a test and lists all of whose elements have a property: `filter`, `filter_map`, `take`.
use klass_mobile_backend.Prelude.{
  ℕ, zero, suc, ◌≡◌, refl, ap, Bool, true, false, Option, none, some, List, [], ◌∷◌, ◌++◌, map,
  if◌then◌else◌, Bool-cases, inl, inr,
}
use klass_mobile_backend.Prelude.Order.{Any}

abbrev pub push : {A : Type 0} → Option A → List A → List A
push none xs = xs
push (some x) xs = x ∷ xs

module _ {A : Type 0} where
  abbrev pub filter : (A → Bool) → List A → List A
  filter p [] = []
  filter p (x ∷ xs) = let rest = filter p xs in if p x then x ∷ rest else rest

  abbrev pub All : (A → Type 0) → List A → Type 0
  All P [] = Unit {0}
  All P (x ∷ xs) = P x × All P xs

  abbrev pub filter_map : {B : Type 0} → (A → Option B) → List A → List B
  filter_map f [] = []
  filter_map f (x ∷ xs) = push (f x) (filter_map f xs)

  pub filter-append :
      (p : A → Bool) (xs ys : List A) → filter p (xs ++ ys) ≡ filter p xs ++ filter p ys
  filter-append p [] ys = refl
  filter-append p (x ∷ xs) ys = elim (Bool-cases (p x)) [
    | inl t ↦ rw t (ap (λ l. x ∷ l) (filter-append p xs ys))
    | inr f ↦ rw f (filter-append p xs ys)
  ]

  pub All-map : (P Q : A → Type 0) → ((a : A) → P a → Q a) → (xs : List A) → All P xs → All Q xs
  All-map P Q f [] h = tt
  All-map P Q f (x ∷ xs) h = (f x h.0, All-map P Q f xs h.1)

  pub All-Any : (xs : List A) → All Any xs
  All-Any [] = tt
  All-Any (x ∷ xs) = (tt, All-Any xs)

  pub All-append : (P : A → Type 0) (xs ys : List A) → All P xs → All P ys → All P (xs ++ ys)
  All-append P [] ys h k = k
  All-append P (x ∷ xs) ys h k = (h.0, All-append P xs ys h.1 k)

  pub All-filter : (P : A → Type 0) (p : A → Bool) (xs : List A) → All P xs → All P (filter p xs)
  All-filter P p [] h = tt
  All-filter P p (x ∷ xs) h = elim (Bool-cases (p x)) [
    | inl t ↦ rw t (h.0, All-filter P p xs h.1)
    | inr f ↦ rw f (All-filter P p xs h.1)
  ]

  pub filter-true : (p : A → Bool) (xs : List A) → All (λ a. p a ≡ true) (filter p xs)
  filter-true p [] = tt
  filter-true p (x ∷ xs) = elim (Bool-cases (p x)) [
    | inl t ↦ rw t (t, filter-true p xs)
    | inr f ↦ rw f (filter-true p xs)
  ]

pub All-of_map :
    {A B : Type 0} (P : B → Type 0) (f : A → B) (xs : List A)
    → All (λ a. P (f a)) xs
    → All P (map f xs)
All-of_map P f [] h = tt
All-of_map P f (x ∷ xs) h = (h.0, All-of_map P f xs h.1)

pub filter-map :
    {A B : Type 0} (p : B → Bool) (q : A → Bool) (f : A → B) (xs : List A)
    → All (λ a. p (f a) ≡ q a) xs
    → filter p (map f xs) ≡ map f (filter q xs)
filter-map p q f [] h = refl
filter-map p q f (x ∷ xs) h = elim (Bool-cases (q x)) [
  | inl t ↦ rw (h.0, t) (ap (λ l. f x ∷ l) (filter-map p q f xs h.1))
  | inr e ↦ rw (h.0, e) (filter-map p q f xs h.1)
]

abbrev pub take : {A : Type 0} → ℕ → List A → List A
take zero xs = []
take (suc n) [] = []
take (suc n) (x ∷ xs) = x ∷ take n xs

pub All-take : {A : Type 0} (P : A → Type 0) (n : ℕ) (xs : List A) → All P xs → All P (take n xs)
All-take P zero xs h = tt
All-take P (suc n) [] h = tt
All-take P (suc n) (x ∷ xs) h = (h.0, All-take P n xs h.1)

module _ {A : Type 0} (p : A → Bool) where
  pub filter_of_true : (xs : List A) → All (λ a. p a ≡ true) xs → filter p xs ≡ xs
  filter_of_true [] h = refl
  filter_of_true (x ∷ xs) h = rw h.0 (ap (λ l. x ∷ l) (filter_of_true xs h.1))

  pub filter_of_false : (xs : List A) → All (λ a. p a ≡ false) xs → filter p xs ≡ []
  filter_of_false [] h = refl
  filter_of_false (x ∷ xs) h = rw h.0 (filter_of_false xs h.1)
