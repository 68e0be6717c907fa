-- ===== src/Prelude/Distinct.antt =====
-- Lists whose elements have different keys.
use test_task_autumn.Prelude.{String, ◌≡◌, false, List, [], ◌∷◌, ◌++◌, ◌==◌, nat_eq, string_eq, All}

unfoldable pub AreDistinct : {A : Type 0} → (A → String) → List A → Type 0
AreDistinct id [] = Unit
AreDistinct id (x ∷ xs) = All (λ y. (id x == id y) ≡ false) xs × AreDistinct id xs

module _ {A : Type 0} where
  pub All-append : (P : A → Type 0) (xs ys : List A) → All P (xs ++ ys) → All P xs × All P ys
  All-append P [] ys h = (tt, h)
  All-append P (x ∷ xs) ys (p, h) = let (a, b) = All-append P xs ys h in ((p, a), b)

  pub All-map : (P Q : A → Type 0) (xs : List A) → ((x : A) → P x → Q x) → All P xs → All Q xs
  All-map P Q [] f h = tt
  All-map P Q (x ∷ xs) f (p, h) = (f x p, All-map P Q xs f h)

  pub All-both : (P Q : A → Type 0) (xs : List A) → All P xs → All Q xs → All (λ x. P x × Q x) xs
  All-both P Q [] h k = tt
  All-both P Q (x ∷ xs) (p, h) (q, k) = ((p, q), All-both P Q xs h k)

  All-unit : (xs : List A) → All (λ x. Unit {0}) xs
  All-unit [] = tt
  All-unit (x ∷ xs) = (tt, All-unit xs)

  pub AreDistinct-append :
      (id : A → String) (xs ys : List A)
      → AreDistinct id (xs ++ ys)
      → AreDistinct id xs × AreDistinct id ys × All (λ y. All (λ x. (id x == id y) ≡ false) xs) ys
  unfolding AreDistinct
  AreDistinct-append id [] ys h = (tt, h, All-unit ys)
  AreDistinct-append id (x ∷ xs) ys (others, h) =
      let (a, b, cross) = AreDistinct-append id xs ys h in
      let (here, there) = All-append (λ y. (id x == id y) ≡ false) xs ys others in
      ((here, a), b, All-both _ _ ys there cross)
