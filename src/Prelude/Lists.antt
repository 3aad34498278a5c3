-- ===== src/Prelude/Lists.antt =====
-- Lists measured by native numbers, and searched by Boolean tests that run.
use Prim.Native.Nat.{ℕ, suc, ◌+◌}
use mathlib.Core.Path.{◌≡◌, refl, sym, ap, ◌∙◌}
use mathlib.Core.Logic.{inl, inr}
use mathlib.Core.Bool.{Bool, true, false, ◌&&◌, ◌||◌}
use mathlib.Core.Option.{Option, none, some}
use mathlib.Core.List.{List, [], ◌∷◌, ◌++◌}
use native.Mathlib.Omega.{arith}
use hop_rs.Prelude.Tests.{if◌then◌else◌, Bool-cases}

module _ {ℓ} {A : Type ℓ} where
  abbrev pub length : List A → ℕ
  length [] = 0
  length (x ∷ xs) = suc (length xs)

  pub length-append : (xs ys : List A) → length (xs ++ ys) ≡ length xs + length ys
  length-append [] ys = omega arith
  length-append (x ∷ xs) ys = omega (arith, length-append xs ys)

  abbrev pub any : (A → Bool) → List A → Bool
  any p [] = false
  any p (x ∷ xs) = p x || any p xs

  abbrev pub every : (A → Bool) → List A → Bool
  every p [] = true
  every p (x ∷ xs) = p x && every p xs

  -- The first item that passes.
  abbrev pub find : (A → Bool) → List A → Option A
  find p [] = none
  find p (x ∷ xs) = if p x then some x else find p xs

  -- The items that pass.
  abbrev pub keep : (A → Bool) → List A → List A
  keep p [] = []
  keep p (x ∷ xs) = if p x then x ∷ keep p xs else keep p xs

  abbrev pub count : (A → Bool) → List A → ℕ
  count p [] = 0
  count p (x ∷ xs) = if p x then suc (count p xs) else count p xs

  -- UPDATE … WHERE p
  abbrev pub update_where : (A → Bool) → (A → A) → List A → List A
  update_where p f [] = []
  update_where p f (x ∷ xs) = (if p x then f x else x) ∷ update_where p f xs

  -- A predicate on every item, which computes to a tuple.
  abbrev pub All {κ} : (A → Type κ) → List A → Type κ
  All P [] = Unit
  All P (x ∷ xs) = P x × All P xs

  -- An item stands in the list, by position.
  pub data Elem (a : A) : List A → Type ℓ where
    here : {x : A} {xs : List A} → a ≡ x → Elem a (x ∷ xs)
    there : {x : A} {xs : List A} → Elem a xs → Elem a (x ∷ xs)

module _ {ℓ} {A : Type ℓ} where
  pub any-Elem :
      (test : A → Bool) (a : A) (l : List A) → Elem a l → test a ≡ true → any test l ≡ true
  any-Elem test a [] i h = elim i [ ]
  any-Elem test a (x ∷ l) (here same) h = let passes = ap test (sym same) ∙ h in ground arith
  any-Elem test a (x ∷ l) (there later) h = let rest = any-Elem test a l later h in ground arith

  pub Elem-keep :
      (test : A → Bool) (a : A) (l : List A) → Elem a l → test a ≡ true → Elem a (keep test l)
  Elem-keep test a [] i h = elim i [ ]
  Elem-keep test a (x ∷ l) (here same) h =
      let passes = ap test (sym same) ∙ h in rw passes (here same)
  Elem-keep test a (x ∷ l) (there later) h = elim (Bool-cases (test x)) [
    | inl passes ↦ rw passes (there (Elem-keep test a l later h))
    | inr fails ↦ rw fails (Elem-keep test a l later h)
  ]

  pub every-append :
      (test : A → Bool) (xs ys : List A) → every test (xs ++ ys) ≡ (every test xs && every test ys)
  every-append test [] ys = refl
  every-append test (x ∷ xs) ys = ground (arith, every-append test xs ys)

-- `Vec::sort`, which is stable: an item goes before the items that are not smaller.
abbrev pub sort_into {ℓ} : {A : Type ℓ} → (A → A → Bool) → A → List A → List A
sort_into before x [] = x ∷ []
sort_into before x (y ∷ ys) =
    let later = y ∷ sort_into before x ys in if before y x then later else x ∷ y ∷ ys

abbrev pub sort_by {ℓ} : {A : Type ℓ} → (A → A → Bool) → List A → List A
sort_by before [] = []
sort_by before (x ∷ xs) = sort_into before x (sort_by before xs)

module _ {ℓ} {A : Type ℓ} (before : A → A → Bool) where
  Elem-sort_into : (a x : A) (ys : List A) → Elem a (sort_into before x ys) → Elem a (x ∷ ys)
  Elem-sort_into a x [] h = h
  Elem-sort_into a x (y ∷ ys) h = elim (Bool-cases (before y x)) [
    | inl later ↦
        let moved : Elem a (y ∷ sort_into before x ys) = rw later at h in
        elim moved [
          | here same ↦ there (here same)
          | there further ↦ elim (Elem-sort_into a x ys further) [
            | here same ↦ here same
            | there rest ↦ there (there rest)
          ]
        ]
    | inr first ↦ rw first at h
  ]

  -- Sorting adds no item.
  pub Elem-sort_by : (a : A) (xs : List A) → Elem a (sort_by before xs) → Elem a xs
  Elem-sort_by a [] h = h
  Elem-sort_by a (x ∷ xs) h = elim (Elem-sort_into a x (sort_by before xs) h) [
    | here same ↦ here same
    | there later ↦ there (Elem-sort_by a xs later)
  ]

  length-sort_into : (x : A) (ys : List A) → length (sort_into before x ys) ≡ suc (length ys)
  length-sort_into x [] = refl
  length-sort_into x (y ∷ ys) = ground (arith, length-sort_into x ys)

  pub length-sort_by : (xs : List A) → length (sort_by before xs) ≡ length xs
  length-sort_by [] = refl
  length-sort_by (x ∷ xs) = length-sort_into x (sort_by before xs) ∙ ap suc (length-sort_by xs)

module _ {ℓ} {A : Type ℓ} (test : A → Bool) (a : A) where
  pub Elem-of_keep : (xs : List A) → Elem a (keep test xs) → Elem a xs
  Elem-of_keep [] h = h
  Elem-of_keep (x ∷ xs) h = elim (Bool-cases (test x)) [
    | inl passes ↦
        let kept : Elem a (x ∷ keep test xs) = rw passes at h in
        elim kept [ here same ↦ here same | there later ↦ there (Elem-of_keep xs later) ]
    | inr fails ↦ there (Elem-of_keep xs (rw fails at h))
  ]

  pub Elem-of_find : (xs : List A) → find test xs ≡ some a → Elem a xs
  Elem-of_find [] h = cc
  Elem-of_find (x ∷ xs) h = elim (Bool-cases (test x)) [
    | inl passes ↦ here (ground arith)
    | inr fails ↦ there (Elem-of_find xs (rw fails at h))
  ]

pub cons-equal {ℓ} : {A : Type ℓ} {x y : A} {xs ys : List A} → x ≡ y → xs ≡ ys → x ∷ xs ≡ y ∷ ys
cons-equal {y = y} {xs = xs} first rest = ap (λ z. z ∷ xs) first ∙ ap (λ zs. y ∷ zs) rest
