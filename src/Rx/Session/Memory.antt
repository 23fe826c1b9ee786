-- ===== src/Rx/Session/Memory.antt =====
-- Searching and thinning out a list with a Boolean test, as `iter().any` and `Vec::retain` do.
use js8rs.Prelude.{
  Bool, true, false, ◌||◌, ◌&&◌, if◌then◌else◌, List, [], ◌∷◌, ◌++◌, ◌≡◌, refl, arith,
}

module _ {ℓ} {A : Type ℓ} where
  abbrev pub any : (A → Bool) → List A → Bool
  any p [] = false
  any p (x ∷ xs) = p x || any p xs

  abbrev pub retain : (A → Bool) → List A → List A
  retain p [] = []
  retain p (x ∷ xs) = let rest = retain p xs in if p x then x ∷ rest else rest

  pub any-append : (p : A → Bool) (xs ys : List A) → any p (xs ++ ys) ≡ (any p xs || any p ys)
  any-append p [] ys = refl
  any-append p (x ∷ xs) ys = ground (arith, any-append p xs ys)

  pub any-retain : (p q : A → Bool) (xs : List A) → any p (retain q xs) ≡ any (λ x. q x && p x) xs
  any-retain p q [] = refl
  any-retain p q (x ∷ xs) = ground (arith, any-retain p q xs)

  any_mono :
      (p q : A → Bool) (xs : List A)
      → ((x : A) → p x ≡ true → q x ≡ true)
      → any p xs ≡ true
      → any q xs ≡ true
  any_mono p q [] h e = e
  any_mono p q (x ∷ xs) h e = ground (arith, any_mono p q xs h, h x)

  -- `x` is an element of `xs`, as every test sees it.
  abbrev pub Holds : A → List A → Type ℓ
  Holds x xs = (p : A → Bool) → p x ≡ true → any p xs ≡ true

  pub Holds-retain :
      (q : A → Bool) (x : A) (xs : List A) → q x ≡ true → Holds x xs → Holds x (retain q xs)
  Holds-retain q x xs kept h p e =
      let both = h (λ y. q y && p y) in ground (arith, any-retain p q xs, both)

  pub Holds-append_left : (x : A) (xs ys : List A) → Holds x xs → Holds x (xs ++ ys)
  Holds-append_left x xs ys h p e = ground (arith, any-append p xs ys, h p e)

  pub append-Holds : (x : A) (xs : List A) → Holds x (xs ++ x ∷ [])
  append-Holds x xs p e = ground (arith, any-append p xs (x ∷ []), e)

  -- Every element of `xs` is one of `ys`, as every test sees it.
  abbrev pub Within : List A → List A → Type ℓ
  Within xs ys = (p : A → Bool) → any p xs ≡ true → any p ys ≡ true

  pub Within-retain : (q : A → Bool) (xs : List A) → Within (retain q xs) xs
  Within-retain q xs p e =
      let all = any_mono (λ x. q x && p x) p xs (λ x h. ground (arith, h)) in
      ground (arith, any-retain p q xs, all, e)

  pub Within-append : (xs ys zs : List A) → Within xs ys → Within (xs ++ zs) (ys ++ zs)
  Within-append xs ys zs h p e = ground (arith, any-append p xs zs, any-append p ys zs, h p, e)
