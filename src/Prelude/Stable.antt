-- ===== src/Prelude/Stable.antt =====
-- `sort.SliceStable` of Go's package sort: a stable sort, here by insertion, where an element goes
-- before the first one that is not less than it.
use mathlib.Core.Path.{◌≡◌, refl}
use mathlib.Core.Bool.{Bool, true, false}
use mathlib.Core.Logic.{inl, inr}
use mathlib.Core.List.{List, [], ◌∷◌}
use mathlib.Core.List.Permᴰ
use mathlib.Core.List.{Permᴰ}
use orcinus.Prelude.{if◌then◌else◌, Bool-cases, All}

-- The elements that pass a test, in order.
abbrev pub selected : {A : Type 0} → (A → Bool) → List A → List A
selected p [] = []
selected p (a ∷ xs) = if p a then a ∷ selected p xs else selected p xs

module _ {A : Type 0} (less : A → A → Bool) where
  unfoldable pub insert_stable : A → List A → List A
  insert_stable a [] = a ∷ []
  insert_stable a (b ∷ bs) =
      let rest = insert_stable a bs in if less b a then b ∷ rest else a ∷ b ∷ bs

  unfoldable pub slice_stable : List A → List A
  unfolding insert_stable
  slice_stable [] = []
  slice_stable (a ∷ xs) = insert_stable a (slice_stable xs)

  insert_stable-All :
      (P : A → Type 0) (a : A) (bs : List A) → P a → All P bs → All P (insert_stable a bs)
  unfolding insert_stable
  insert_stable-All P a [] h hs = (h, tt)
  insert_stable-All P a (b ∷ bs) h (k, ks) = elim (Bool-cases (less b a)) [
    | inl e ↦ rw e (k, insert_stable-All P a bs h ks)
    | inr e ↦ rw e (h, (k, ks))
  ]

  pub slice_stable-All : (P : A → Type 0) (xs : List A) → All P xs → All P (slice_stable xs)
  unfolding slice_stable
  slice_stable-All P [] h = tt
  slice_stable-All P (a ∷ xs) (h, hs) =
      insert_stable-All P a (slice_stable xs) h (slice_stable-All P xs hs)

  insert_stable-Perm : (a : A) (bs : List A) → Permᴰ (insert_stable a bs) (a ∷ bs)
  unfolding insert_stable
  insert_stable-Perm a [] = Permᴰ.refl (a ∷ [])
  insert_stable-Perm a (b ∷ bs) = elim (Bool-cases (less b a)) [
    | inl e ↦ rw e (Permᴰ.trans (Permᴰ.cons refl (insert_stable-Perm a bs)) (Permᴰ.swap refl refl))
    | inr e ↦ rw e (Permᴰ.refl (a ∷ b ∷ bs))
  ]

  pub slice_stable-Perm : (xs : List A) → Permᴰ (slice_stable xs) xs
  unfolding slice_stable
  slice_stable-Perm [] = Permᴰ.nil
  slice_stable-Perm (a ∷ xs) =
      Permᴰ.trans (insert_stable-Perm a (slice_stable xs)) (Permᴰ.cons refl (slice_stable-Perm xs))

  -- No element is less than the one before it.
  abbrev pub Ascending : List A → Type 0
  Ascending [] = Unit
  Ascending (a ∷ []) = Unit
  Ascending (a ∷ b ∷ bs) = (less b a ≡ false) × Ascending (b ∷ bs)

  module _ (asym : (a b : A) → less a b ≡ true → less b a ≡ false) where
    insert_stable-Ascending : (a : A) (bs : List A) → Ascending bs → Ascending (insert_stable a bs)
    unfolding insert_stable
    insert_stable-Ascending a [] h = tt
    insert_stable-Ascending a (b ∷ []) h = elim (Bool-cases (less b a)) [
      | inl e ↦ rw e (asym b a e, tt)
      | inr e ↦ rw e (e, tt)
    ]
    insert_stable-Ascending a (b ∷ c ∷ bs) (h, hs) = elim (Bool-cases (less b a)) [
      | inr e ↦ rw e (e, (h, hs))
      | inl e ↦ rw e (elim (Bool-cases (less c a)) [
        | inl f ↦ rw f (h, rw f at (insert_stable-Ascending a (c ∷ bs) hs))
        | inr f ↦ rw f (asym b a e, (f, hs))
      ])
    ]

    pub slice_stable-Ascending : (xs : List A) → Ascending (slice_stable xs)
    unfolding slice_stable
    slice_stable-Ascending [] = tt
    slice_stable-Ascending (a ∷ xs) =
        insert_stable-Ascending a (slice_stable xs) (slice_stable-Ascending xs)

  -- A test that only elements pass of which none is less than another.
  module _ (p : A → Bool) (level : (a b : A) → p a ≡ true → p b ≡ true → less b a ≡ false) where
    insert_stable-selected :
        (a : A) (bs : List A) → selected p (insert_stable a bs) ≡ selected p (a ∷ bs)
    unfolding insert_stable
    insert_stable-selected a [] = refl
    insert_stable-selected a (b ∷ bs) = elim (Bool-cases (less b a)) [
      | inr e ↦ rw e
      | inl e ↦
          rw (e, insert_stable-selected a bs)
            (elim (Bool-cases (p a)) [
              | inr f ↦ rw f
              | inl f ↦ elim (Bool-cases (p b)) [
                | inr g ↦ rw (f, g)
                | inl g ↦ absurd (let k = level a b f g in cc)
              ]
            ])
    ]

    pub slice_stable-selected : (xs : List A) → selected p (slice_stable xs) ≡ selected p xs
    unfolding slice_stable
    slice_stable-selected [] = refl
    slice_stable-selected (a ∷ xs) =
        rw (insert_stable-selected a (slice_stable xs), slice_stable-selected xs)
