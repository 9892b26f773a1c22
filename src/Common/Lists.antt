-- ===== src/Common/Lists.antt =====
-- Lists measured and indexed by native numbers, and predicates on all their items.
use Prim.Native.Nat.{ℕ, zero, suc, ◌+◌, ◌-◌, ◌<◌}
use mathlib.Core.Path.{◌≡◌, refl, ap, sym, subst, ◌∙◌}
use mathlib.Core.Bool.{Bool, true, false, ◌||◌}
use mathlib.Core.List.{List, [], ◌∷◌, ◌++◌, map}
use mathlib.Core.Option.{Option, none, some, some-injective}
use native.Mathlib.Omega.{arith}
use helius.Common.Test.{Comparable, ◌==◌, if◌then◌else◌}
use mathlib.Core.Logic.{◌⊎◌, ◌≢◌, inl, inr}

module _ {ℓ} {A : Type ℓ} where
  abbrev pub length : List A → ℕ
  length [] = 0
  length (x ∷ xs) = suc (length xs)

  abbrev pub get_elem? : List A → ℕ → Option A
  get_elem? [] i = none
  get_elem? (x ∷ xs) zero = some x
  get_elem? (x ∷ xs) (suc i) = get_elem? xs i

  -- A write out of bounds changes nothing.
  abbrev pub set : List A → ℕ → A → List A
  set [] i v = []
  set (x ∷ xs) zero v = v ∷ xs
  set (x ∷ xs) (suc i) v = x ∷ set xs i v

  abbrev pub drop : ℕ → List A → List A
  drop zero xs = xs
  drop (suc n) [] = []
  drop (suc n) (x ∷ xs) = drop n xs

  abbrev pub is_empty : List A → Bool
  is_empty [] = true
  is_empty (x ∷ xs) = false

  abbrev pub any : (A → Bool) → List A → Bool
  any p [] = false
  any p (x ∷ xs) = p x || any p xs

  -- Iterator::find
  abbrev pub find : (A → Bool) → List A → Option A
  find p [] = none
  find p (x ∷ xs) = if p x then some x else find p xs

  abbrev pub All {κ} : (A → Type κ) → List A → Type κ
  All P [] = Unit
  All P (x ∷ xs) = P x × All P xs

  pub length-append : (xs ys : List A) → length (xs ++ ys) ≡ length xs + length ys
  length-append [] ys = omega arith
  length-append (x ∷ xs) ys = omega (arith, length-append xs ys)

  pub get_elem?-append :
      (xs ys : List A) (i : ℕ) → i < length xs → get_elem? (xs ++ ys) i ≡ get_elem? xs i
  get_elem?-append [] ys i h = absurd (omega arith)
  get_elem?-append (x ∷ xs) ys zero h = refl
  get_elem?-append (x ∷ xs) ys (suc i) h = get_elem?-append xs ys i (omega arith)

  pub get_elem?-append_last : (xs : List A) (x : A) → get_elem? (xs ++ x ∷ []) (length xs) ≡ some x
  get_elem?-append_last [] x = refl
  get_elem?-append_last (y ∷ xs) x = get_elem?-append_last xs x

  pub length-drop : (n : ℕ) (xs : List A) → length (drop n xs) ≡ length xs - n
  length-drop zero xs = omega arith
  length-drop (suc n) [] = omega arith
  length-drop (suc n) (x ∷ xs) = omega (arith, length-drop n xs)

  pub length-set : (xs : List A) (i : ℕ) (v : A) → length (set xs i v) ≡ length xs
  length-set [] i v = refl
  length-set (x ∷ xs) zero v = refl
  length-set (x ∷ xs) (suc i) v = ap suc (length-set xs i v)

  pub get_elem?-set_ne :
      (xs : List A) (i j : ℕ) (v : A) → i ≢ j → get_elem? (set xs i v) j ≡ get_elem? xs j
  get_elem?-set_ne [] i j v h = refl
  get_elem?-set_ne (x ∷ xs) zero zero v h = absurd (h refl)
  get_elem?-set_ne (x ∷ xs) zero (suc j) v h = refl
  get_elem?-set_ne (x ∷ xs) (suc i) zero v h = refl
  get_elem?-set_ne (x ∷ xs) (suc i) (suc j) v h = get_elem?-set_ne xs i j v (λ e. h (ap suc e))

  pub get_elem?-set_self :
      (xs : List A) (i : ℕ) (v : A) → i < length xs → get_elem? (set xs i v) i ≡ some v
  get_elem?-set_self [] i v h = absurd (omega arith)
  get_elem?-set_self (x ∷ xs) zero v h = refl
  get_elem?-set_self (x ∷ xs) (suc i) v h = get_elem?-set_self xs i v (omega arith)

  pub get_elem?-lt : (xs : List A) (i : ℕ) (v : A) → get_elem? xs i ≡ some v → i < length xs
  get_elem?-lt [] i v h = ground arith
  get_elem?-lt (x ∷ xs) zero v h = omega arith
  get_elem?-lt (x ∷ xs) (suc i) v h = omega (arith, get_elem?-lt xs i v h)

  pub get_elem?_total : (xs : List A) (i : ℕ) → i < length xs → (v : A) × (get_elem? xs i ≡ some v)
  get_elem?_total [] i h = absurd (omega arith)
  get_elem?_total (x ∷ xs) zero h = (x, refl)
  get_elem?_total (x ∷ xs) (suc i) h = get_elem?_total xs i (omega arith)

pub get_elem?-middle {ℓ} :
    {A : Type ℓ} (pre post : List A) (x : A) → get_elem? (pre ++ x ∷ post) (length pre) ≡ some x
get_elem?-middle [] post x = refl
get_elem?-middle (y ∷ pre) post x = get_elem?-middle pre post x

pub get_elem?-length {ℓ} : {A : Type ℓ} (xs : List A) → get_elem? xs (length xs) ≡ none
get_elem?-length [] = refl
get_elem?-length (x ∷ xs) = get_elem?-length xs

pub length-append_one {ℓ} :
    {A : Type ℓ} (xs : List A) (x : A) → length (xs ++ x ∷ []) ≡ suc (length xs)
length-append_one [] x = refl
length-append_one (y ∷ xs) x = ap suc (length-append_one xs x)

module _ {ℓ} {A : Type ℓ} ⦃c : Comparable A⦄ where
  -- slice::contains
  abbrev pub contains : List A → A → Bool
  contains [] a = false
  contains (x ∷ xs) a = (a == x) || contains xs a

module _ {A : Type 0} where
  abbrev pub Any : (A → Type 0) → List A → Type 0
  Any P [] = ⊥
  Any P (x ∷ xs) = P x ⊎ Any P xs

  pub All-get_elem? :
      (P : A → Type 0) (xs : List A) (i : ℕ) (x : A) → All P xs → get_elem? xs i ≡ some x → P x
  All-get_elem? P [] i x h e = absurd (ground arith)
  All-get_elem? P (y ∷ xs) zero x h e = subst P (some-injective y x e) h.0
  All-get_elem? P (y ∷ xs) (suc i) x h e = All-get_elem? P xs i x h.1 e

  pub All-mono : (P Q : A → Type 0) (xs : List A) → ((x : A) → P x → Q x) → All P xs → All Q xs
  All-mono P Q [] h a = tt
  All-mono P Q (x ∷ xs) h a = (h x a.0, All-mono P Q xs h a.1)

  pub Any-mono : (P Q : A → Type 0) (xs : List A) → ((x : A) → P x → Q x) → Any P xs → Any Q xs
  Any-mono P Q [] h a = a
  Any-mono P Q (x ∷ xs) h (inl p) = inl (h x p)
  Any-mono P Q (x ∷ xs) h (inr a) = inr (Any-mono P Q xs h a)

  pub Any-All : (P Q : A → Type 0) (xs : List A) → Any P xs → All Q xs → Any (λ x. P x × Q x) xs
  Any-All P Q [] a h = a
  Any-All P Q (x ∷ xs) (inl p) h = inl (p, h.0)
  Any-All P Q (x ∷ xs) (inr a) h = inr (Any-All P Q xs a h.1)

  -- Applies a function to the item at an index.
  abbrev pub modify : ℕ → (A → A) → List A → List A
  modify zero f [] = []
  modify (suc i) f [] = []
  modify zero f (x ∷ xs) = f x ∷ xs
  modify (suc i) f (x ∷ xs) = x ∷ modify i f xs

  pub length-modify : (i : ℕ) (f : A → A) (xs : List A) → length (modify i f xs) ≡ length xs
  length-modify zero f [] = refl
  length-modify (suc i) f [] = refl
  length-modify zero f (x ∷ xs) = refl
  length-modify (suc i) f (x ∷ xs) = ap suc (length-modify i f xs)

module _ {A B : Type 0} (g : A → B) where
  pub length-map : (xs : List A) → length (map g xs) ≡ length xs
  length-map [] = refl
  length-map (x ∷ xs) = ap suc (length-map xs)

  pub get_elem?-map :
      (xs : List A) (i : ℕ) (x : A) → get_elem? xs i ≡ some x → get_elem? (map g xs) i ≡ some (g x)
  get_elem?-map [] i x h = absurd (ground arith)
  get_elem?-map (y ∷ xs) zero x h = ap (λ z. some (g z)) (some-injective y x h)
  get_elem?-map (y ∷ xs) (suc i) x h = get_elem?-map xs i x h

  pub get_elem?-map-none :
      (xs : List A) (i : ℕ) → get_elem? xs i ≡ none → get_elem? (map g xs) i ≡ none
  get_elem?-map-none [] i h = refl
  get_elem?-map-none (y ∷ xs) zero h = absurd (ground arith)
  get_elem?-map-none (y ∷ xs) (suc i) h = get_elem?-map-none xs i h

  -- An item that is written over, seen through a map.
  pub map-modify :
      (f : B → B) (xs : List A) (i : ℕ) (old new : A)
      → get_elem? xs i ≡ some old
      → g new ≡ f (g old)
      → map g (modify i (λ _. new) xs) ≡ modify i f (map g xs)
  map-modify f [] i old new h e = absurd (ground arith)
  map-modify f (x ∷ xs) zero old new h e =
      ap (λ b. b ∷ map g xs) (e ∙ ap (λ z. f (g z)) (sym (some-injective x old h)))
  map-modify f (x ∷ xs) (suc i) old new h e = ap (λ t. g x ∷ t) (map-modify f xs i old new h e)

  pub map-set : (xs : List A) (i : ℕ) (v : A) → map g (set xs i v) ≡ set (map g xs) i (g v)
  map-set [] i v = refl
  map-set (x ∷ xs) zero v = refl
  map-set (x ∷ xs) (suc i) v = ap (λ t. g x ∷ t) (map-set xs i v)

module _ {A : Type 0} where
  pub set_same : (xs : List A) (i : ℕ) (v : A) → get_elem? xs i ≡ some v → set xs i v ≡ xs
  set_same [] i v h = refl
  set_same (x ∷ xs) zero v h = ap (λ z. z ∷ xs) (sym (some-injective x v h))
  set_same (x ∷ xs) (suc i) v h = ap (λ t. x ∷ t) (set_same xs i v h)

  pub modify_missing :
      (f : A → A) (xs : List A) (i : ℕ) → get_elem? xs i ≡ none → modify i f xs ≡ xs
  modify_missing f [] zero h = refl
  modify_missing f [] (suc i) h = refl
  modify_missing f (x ∷ xs) zero h = absurd (ground arith)
  modify_missing f (x ∷ xs) (suc i) h = ap (λ t. x ∷ t) (modify_missing f xs i h)

  pub modify_id : (xs : List A) (i : ℕ) → modify i (λ a. a) xs ≡ xs
  modify_id [] zero = refl
  modify_id [] (suc i) = refl
  modify_id (x ∷ xs) zero = refl
  modify_id (x ∷ xs) (suc i) = ap (λ t. x ∷ t) (modify_id xs i)

pub modify-middle :
    {A : Type 0} (f : A → A) (pre post : List A) (x : A)
    → modify (length pre) f (pre ++ x ∷ post) ≡ pre ++ f x ∷ post
modify-middle f [] post x = refl
modify-middle f (y ∷ pre) post x = ap (λ t. y ∷ t) (modify-middle f pre post x)
