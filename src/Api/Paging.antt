-- ===== src/Api/Paging.antt =====
-- `query.order_by(…).limit(limit).offset(offset)`, and what its pages amount to.
use scan_ledger.Prelude.{
  ℕ, zero, suc, ◌+◌, ◌*◌, ◌≤◌, ◌≡◌, refl, sym, ap, subst, ◌∙◌, arith, Bool, List, [], ◌∷◌, ◌++◌,
  length, count_if, if◌then◌else◌,
}

unfoldable pub take : {A : Type 0} → ℕ → List A → List A
take zero xs = []
take (suc n) [] = []
take (suc n) (x ∷ xs) = x ∷ take n xs

unfoldable pub drop : {A : Type 0} → ℕ → List A → List A
drop zero xs = xs
drop (suc n) [] = []
drop (suc n) (x ∷ xs) = drop n xs

unfoldable pub page : {A : Type 0} → ℕ → ℕ → List A → List A
unfolding take drop
page limit offset xs = take limit (drop offset xs)

-- `order_by`, where `before x y` says that `x` may stand before `y`
unfoldable pub insert_by : {A : Type 0} → (A → A → Bool) → A → List A → List A
insert_by before x [] = x ∷ []
insert_by before x (y ∷ ys) =
    let rest = insert_by before x ys in if before x y then x ∷ y ∷ ys else y ∷ rest

unfoldable pub order_by : {A : Type 0} → (A → A → Bool) → List A → List A
unfolding insert_by
order_by before [] = []
order_by before (x ∷ xs) = insert_by before x (order_by before xs)

-- The pages that a reader asks for, one after the other.
unfoldable pub pages : {A : Type 0} → ℕ → ℕ → ℕ → List A → List A
unfolding page
pages zero limit offset xs = []
pages (suc n) limit offset xs = page limit offset xs ++ pages n limit (offset + limit) xs

module _ {A : Type 0} where
  drop_all : (n : ℕ) (xs : List A) → length xs ≤ n → drop n xs ≡ []
  unfolding drop
  drop_all zero [] h = refl
  drop_all (suc n) [] h = refl
  drop_all (suc n) (x ∷ xs) h = drop_all n xs (omega arith)
  drop_all zero (x ∷ xs) h = absurd (omega arith)

  take-drop_zero : (n : ℕ) (xs : List A) → take n xs ++ drop n xs ≡ xs
  unfolding take drop
  take-drop_zero zero xs = refl
  take-drop_zero (suc n) [] = refl
  take-drop_zero (suc n) (x ∷ xs) = ap (λ r. x ∷ r) (take-drop_zero n xs)

  take-drop_nil : (n : ℕ) (xs : List A) → xs ≡ [] → take n xs ++ [] ≡ []
  unfolding take
  take-drop_nil zero xs h = refl
  take-drop_nil (suc n) [] h = refl
  take-drop_nil (suc n) (x ∷ xs) h = cc

  take-drop : (n m k : ℕ) (xs : List A) → m + n ≡ k → take n (drop m xs) ++ drop k xs ≡ drop m xs
  unfolding drop
  take-drop n zero k xs e =
      subst (λ i. take n xs ++ drop i xs ≡ xs) (omega arith) (take-drop_zero n xs)
  take-drop n (suc m) (suc k) [] e = take-drop_nil n [] refl
  take-drop n (suc m) (suc k) (x ∷ xs) e = take-drop n m k xs (omega arith)
  take-drop n (suc m) zero xs e = absurd (omega arith)

  length-take : (n : ℕ) (ys : List A) → length (take n ys) ≤ n
  unfolding take
  length-take zero ys = omega arith
  length-take (suc n) [] = omega arith
  length-take (suc n) (y ∷ ys) = omega (arith, length-take n ys)

  pub length-page : (limit offset : ℕ) (xs : List A) → length (page limit offset xs) ≤ limit
  unfolding page
  length-page limit offset xs = length-take limit (drop offset xs)

  -- Enough pages give every row once, in the order of the query.
  pub pages-all :
      (n limit offset : ℕ) (xs : List A)
      → length xs ≤ offset + n * limit
      → pages n limit offset xs ≡ drop offset xs
  unfolding pages page
  pages-all zero limit offset xs h = sym (drop_all offset xs (omega arith))
  pages-all (suc n) limit offset xs h =
      ap (λ r. take limit (drop offset xs) ++ r)
        (pages-all n limit (offset + limit) xs (more n limit offset (length xs) h))
      ∙ take-drop limit offset (offset + limit) xs refl
    where
      more :
          (n limit offset total : ℕ)
          → total ≤ offset + suc n * limit
          → total ≤ offset + limit + n * limit
      more n limit offset total h = grind arith

module _ {A : Type 0} (before : A → A → Bool) where
  length-insert_by : (x : A) (xs : List A) → length (insert_by before x xs) ≡ suc (length xs)
  unfolding insert_by
  length-insert_by x [] = refl
  length-insert_by x (y ∷ ys) = ground (arith, length-insert_by x ys)

  pub length-order_by : (xs : List A) → length (order_by before xs) ≡ length xs
  unfolding order_by
  length-order_by [] = refl
  length-order_by (x ∷ xs) =
      omega (arith, length-insert_by x (order_by before xs), length-order_by xs)

  count-insert_by :
      (x : A) (xs : List A) (p : A → Bool)
      → count_if (insert_by before x xs) p ≡ count_if (x ∷ xs) p
  unfolding insert_by
  count-insert_by x [] p = refl
  count-insert_by x (y ∷ ys) p = ground (arith, count-insert_by x ys p)

  -- Sorting neither adds nor loses a row.
  pub count-order_by :
      (xs : List A) (p : A → Bool) → count_if (order_by before xs) p ≡ count_if xs p
  unfolding order_by
  count-order_by [] p = refl
  count-order_by (x ∷ xs) p =
      omega (arith, count-insert_by x (order_by before xs) p, count-order_by xs p)
