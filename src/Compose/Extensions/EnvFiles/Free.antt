-- ===== src/Compose/Extensions/EnvFiles/Free.antt =====
-- That `envFileDest` always finds a path, which no other file is staged under.
use orcinus.Prelude.{
  subst, ℕ, zero, suc, ◌+◌, ◌≤◌, ◌<◌, true, false, String, Option, none, some, List, [], ◌∷◌, ◌≡◌,
  ◌≢◌, refl, sym, ap, ◌∙◌, inl, inr, arith, ◌==◌, eq_iff, eq_refl, ◌⊕◌, if◌then◌else◌, Bool-cases,
  Option-cases, contains, length,
}
use orcinus.Prelude.Decimal.{print_nat}
use orcinus.Prelude.Decimal.Read.{print_nat_injective}
use orcinus.Prelude.Dict.{Dict, lookup, put, keys, lookup-put}
use orcinus.Compose.Extensions.Paths.{base}
use orcinus.Compose.Extensions.EnvFiles.{
  first_dest, is_free, numbered, free_dest, recorded, env_file_dest,
}
use package.text.Mathlib.TextLemmas.{append_cancel_right}

-- The texts without the first that is `x`.
abbrev drop_one : String → List String → List String
drop_one x [] = []
drop_one x (y ∷ ys) = if y == x then ys else y ∷ drop_one x ys

length-drop_one :
    (x : String) (ks : List String)
    → contains x ks ≡ true
    → length ks ≡ suc (length (drop_one x ks))
length-drop_one x [] h = cc
length-drop_one x (y ∷ ys) h = elim (Bool-cases (y == x)) [
  | inl e ↦ rw e refl
  | inr e ↦ rw e (ap suc (length-drop_one x ys (ground arith)))
]

contains-drop_one :
    (x z : String) (ks : List String)
    → (x == z) ≡ false
    → contains z ks ≡ true
    → contains z (drop_one x ks) ≡ true
contains-drop_one x z [] ne h = cc
contains-drop_one x z (y ∷ ys) ne h = elim (Bool-cases (y == x)) [
  | inl e ↦ rw e (ground (arith, eq_iff y x))
  | inr e ↦ rw e (ground (arith, contains-drop_one x z ys ne))
]

-- Distinct texts that all stand in a list are no more than it is long.
pigeonhole :
    (c : ℕ → String)
    → ((a b : ℕ) → c a ≡ c b → a ≡ b)
    → (n : ℕ) (ks : List String) → ((k : ℕ) → k < n → contains (c k) ks ≡ true)
    → n ≤ length ks
pigeonhole c inj zero ks h = omega arith
pigeonhole c inj (suc n) ks h =
    let fewer : n ≤ length (drop_one (c n) ks) =
      pigeonhole c inj n (drop_one (c n) ks)
        (λ k lt. contains-drop_one (c n) (c k) ks (differs k lt) (h k (omega arith))) in
    omega (arith, length-drop_one (c n) ks (h n (omega arith)))
  where
    differs : (k : ℕ) → k < n → (c n == c k) ≡ false
    differs k lt = elim (Bool-cases (c n == c k)) [
      | inr e ↦ e
      | inl e ↦ let same : n ≡ k = inj n k ((eq_iff (c n) (c k)).0 e) in absurd (omega arith)
    ]

contains-keys : (k v : String) (m : Dict String) → lookup k m ≡ some v → contains k (keys m) ≡ true
unfolding lookup keys
contains-keys k v [] h = cc
contains-keys k v ((j, w) ∷ m) h = elim (Bool-cases (j == k)) [
  | inl e ↦ rw e refl
  | inr e ↦ rw e (contains-keys k v m (rw e at h))
]

length-keys : (m : Dict String) → length (keys m) ≡ length m
unfolding keys
length-keys [] = refl
length-keys ((j, w) ∷ m) = ap suc (length-keys m)

module _ (dests : Dict String) (src : String) where
  -- The paths that the loop tries.
  abbrev tried : ℕ → String → ℕ → String
  tried i dest zero = dest
  tried i dest (suc k) = tried (suc i) (numbered src i) k

  tried-numbered : (k i : ℕ) (dest : String) → tried i dest (suc k) ≡ numbered src (i + k)
  tried-numbered zero i dest = ap (numbered src) (omega arith)
  tried-numbered (suc k) i dest =
      tried-numbered k (suc i) (numbered src i) ∙ ap (numbered src) (omega arith)

  taken-keys :
      (dest : String) → is_free src (lookup dest dests) ≡ false → contains dest (keys dests) ≡ true
  taken-keys dest h = elim (Option-cases (lookup dest dests)) [
    | inl e ↦ absurd (let k = rw e at h in cc)
    | inr (v, e) ↦ contains-keys dest v dests e
  ]

  free_dest-tried :
      (fuel i : ℕ) (dest : String)
      → free_dest fuel dests src i dest ≡ none
      → (k : ℕ) → k < fuel
      → contains (tried i dest k) (keys dests) ≡ true
  unfolding free_dest
  free_dest-tried zero i dest h k lt = absurd (omega arith)
  free_dest-tried (suc fuel) i dest h zero lt =
      elim (Bool-cases (is_free src (lookup dest dests))) [
        | inl e ↦ absurd (let x = rw e at h in cc)
        | inr e ↦ taken-keys dest e
      ]
  free_dest-tried (suc fuel) i dest h (suc k) lt =
      elim (Bool-cases (is_free src (lookup dest dests))) [
        | inl e ↦ absurd (let x = rw e at h in cc)
        | inr e ↦ free_dest-tried fuel (suc i) (numbered src i) (rw e at h) k (omega arith)
      ]

  numbered_injective : (i a b : ℕ) → numbered src (i + a) ≡ numbered src (i + b) → a ≡ b
  numbered_injective i a b h =
      let p : print_nat (i + a) ≡ print_nat (i + b) =
        append_cancel_right (print_nat (i + a)) (print_nat (i + b)) ("-" ⊕ base src) h in
      omega (arith, print_nat_injective (i + a) (i + b) p)

  free_dest_found : (dest : String) → free_dest (suc (suc (length dests))) dests src 1 dest ≢ none
  free_dest_found dest h =
      let many : suc (length dests) ≤ length (keys dests) =
        pigeonhole (λ k. numbered src (1 + k)) (numbered_injective 1) (suc (length dests))
          (keys dests)
          (λ k lt.
            subst (λ d. contains d (keys dests) ≡ true) (tried-numbered k 1 dest)
              (free_dest-tried (suc (suc (length dests))) 1 dest h (suc k) (omega arith))) in
      omega (arith, length-keys dests)

  free_dest_free :
      (fuel i : ℕ) (dest d : String)
      → free_dest fuel dests src i dest ≡ some d
      → is_free src (lookup d dests) ≡ true
  unfolding free_dest
  free_dest_free zero i dest d h = absurd (cc)
  free_dest_free (suc fuel) i dest d h = elim (Bool-cases (is_free src (lookup dest dests))) [
    | inl e ↦
        let p : dest ≡ d = some_eq (rw e at h) in
        subst (λ d. is_free src (lookup d dests) ≡ true) p e
    | inr e ↦ free_dest_free fuel (suc i) (numbered src i) d (rw e at h)
  ]
    where
      some_eq : {a b : String} → ◌≡◌ {A = Option String} (some a) (some b) → a ≡ b
      some_eq h = cc

-- What was staged under a path still is.
abbrev pub StillStaged : Option String → Option String → Type 0
StillStaged none now = Unit
StillStaged (some prev) now = now ≡ some prev

StillStaged-put :
    (src d k : String) (dests : Dict String)
    → is_free src (lookup d dests) ≡ true
    → StillStaged (lookup k dests) (lookup k (put d src dests))
StillStaged-put src d k dests free = elim (Option-cases (lookup k dests)) [
  | inl e ↦ rw e tt
  | inr (prev, e) ↦ rw e (
      lookup-put d k src dests ∙ elim (Bool-cases (d == k)) [
        | inr ne ↦ rw ne e
        | inl eq ↦ rw eq (ap some (sym (same prev e ((eq_iff d k).0 eq))))
      ])
]
  where
    same : (prev : String) → lookup k dests ≡ some prev → d ≡ k → prev ≡ src
    same prev e p =
        let here : is_free src (lookup k dests) ≡ true =
          subst (λ d. is_free src (lookup d dests) ≡ true) p free in
        (eq_iff prev src).0 (rw e at here)

-- `envFileDest` always returns, with a path that is then staged for the file, and every path that
-- was staged for a file before is staged for the same file afterwards.
pub env_file_dest_lem :
    (path src : String) (dests : Dict String) (k : String)
    → (dest : String) × (dests' : Dict String) × (env_file_dest path src dests
        ≡ some (dest, dests'))
      × (lookup dest dests' ≡ some src)
      × StillStaged (lookup k dests) (lookup k dests')
unfolding env_file_dest
env_file_dest_lem path src dests k =
    elim (Option-cases (free_dest (suc (suc (length dests))) dests src 1 (first_dest path src))) [
      | inl e ↦ absurd (free_dest_found dests src (first_dest path src) e)
      | inr (d, e) ↦ (
        d,
        put d src dests,
        ap (recorded dests src) e,
        lookup-put d d src dests ∙ rw (eq_refl d) refl,
        StillStaged-put src d k dests (free_dest_free dests src _ 1 (first_dest path src) d e),
      )
    ]
