-- ===== src/Cluster/Versions/Steps.antt =====
-- That an upgrade skips no minor release.
use orcinus.Prelude.{
  ltb, ◌<◌, ◌⊎◌, ℕ, suc, ◌≤◌, true, false, String, some, List, [], ◌∷◌, ◌≡◌, refl, ap, inl, inr,
  arith, Bool-cases, map, subst,
}
use orcinus.Prelude.Int.{ℤ, pos, negsuc, ltb_ℤ, pos_part}
use orcinus.Prelude.Result.{Result, ok, err}
use orcinus.Cluster.Versions.{
  upgrade_path, last_of, target_version, minor_patch, or_zero, is_newer, newer, steps_from,
  oldest_minor, upgrade_steps, VersionError, docker_tag, from_docker_tag,
}

path_read :
    map minor_patch upgrade_path
    ≡ some (pos 32, pos 13)
      ∷ some (pos 33, pos 13)
      ∷ some (pos 34, pos 12)
      ∷ some (pos 35, pos 9)
      ∷ some (pos 36, pos 5)
      ∷ []
unfolding minor_patch
path_read = refl

tags_read : map (λ v. from_docker_tag (docker_tag v)) upgrade_path ≡ upgrade_path
unfolding docker_tag from_docker_tag
tags_read = refl

-- Versions of consecutive minor releases, from `m` on.
abbrev Consecutive : ℕ → List String → Type 0
Consecutive m [] = Unit
Consecutive m (v ∷ vs) = ((p : ℤ) × (or_zero (minor_patch v) ≡ (pos m, p))) × Consecutive (suc m) vs

-- A later minor release, or a later patch of the same.
abbrev pub Later : ℤ × ℤ → ℤ × ℤ → Type 0
Later (n, cp) (m, p) = (pos_part n < pos_part m) ⊎ ((n ≡ m) × (ltb_ℤ cp p ≡ true))

-- Each version is newer than the one before it, by at most one minor release.
abbrev pub Ascending : ℤ × ℤ → List String → Type 0
Ascending cur [] = Unit
Ascending cur (v ∷ vs) =
    Later cur (or_zero (minor_patch v))
    × (pos_part (or_zero (minor_patch v)).0 ≤ suc (pos_part cur.0))
    × Ascending (or_zero (minor_patch v)) vs

abbrev pub EndsAt : String → List String → Type 0
EndsAt w [] = Unit
EndsAt w (v ∷ vs) = last_of v vs ≡ w

is_newer-later : (n m : ℕ) (cp p : ℤ) → suc n ≤ m → is_newer (pos n, cp) (pos m, p) ≡ true
unfolding is_newer
is_newer-later n m cp p h = ground arith

is_newer-Later :
    (n m : ℕ) (cp p : ℤ) → is_newer (pos n, cp) (pos m, p) ≡ true → Later (pos n, cp) (pos m, p)
unfolding is_newer
is_newer-Later n m cp p h = elim (Bool-cases (ltb n m)) [
  | inl lt ↦ inl (ground arith)
  | inr ge ↦ let same : n ≡ m = ground arith in inr (ap pos same, ground arith)
]

newer-later :
    (n m : ℕ) (cp : ℤ) (vs : List String) → suc n ≤ m → Consecutive m vs → newer (pos n, cp) vs ≡ vs
unfolding newer
newer-later n m cp [] h k = refl
newer-later n m cp (v ∷ vs) h ((p, e), k) = rw e (
    rw (is_newer-later n m cp p h)
      (ap (λ ws. v ∷ ws) (newer-later n (suc m) cp vs (omega arith) k)))

Consecutive-Ascending :
    (n : ℕ) (cp : ℤ) (vs : List String) → Consecutive (suc n) vs → Ascending (pos n, cp) vs
Consecutive-Ascending n cp [] k = tt
Consecutive-Ascending n cp (v ∷ vs) ((p, e), k) =
    rw e (inl (omega arith), omega arith, Consecutive-Ascending (suc n) p vs k)

is_newer-le : (n m : ℕ) (cp p : ℤ) → is_newer (pos n, cp) (pos m, p) ≡ true → n ≤ m
unfolding is_newer
is_newer-le n m cp p h = ground arith

not_newer-le : (n m : ℕ) (cp p : ℤ) → is_newer (pos n, cp) (pos m, p) ≡ false → m ≤ n
unfolding is_newer
not_newer-le n m cp p h = ground arith

-- What is kept of such a path that begins at most one minor release later.
abbrev Kept : ℕ → ℤ → List String → Type 0
Kept n cp vs =
    Ascending (pos n, cp) (newer (pos n, cp) vs)
    × ((w : String) → EndsAt (last_of w vs) (newer (pos n, cp) vs))

newer-Kept : (n m : ℕ) (cp : ℤ) (vs : List String) → m ≤ suc n → Consecutive m vs → Kept n cp vs
unfolding newer
newer-Kept n m cp [] h k = (tt, λ w. tt)
newer-Kept n m cp (v ∷ vs) h ((p, e), k) = elim (Bool-cases (is_newer (pos n, cp) (pos m, p))) [
  | inr old ↦
      let (a, b) = newer-Kept n (suc m) cp vs (omega (arith, not_newer-le n m cp p old)) k in
      rw e (rw old (a, λ w. b v))
  | inl new ↦
      let all = newer-later n (suc m) cp vs (omega (arith, is_newer-le n m cp p new)) k in
      rw e (
        rw (new, all)
          ((rw e (is_newer-Later n m cp p new, h, Consecutive-Ascending m p vs k)), λ w. refl))
]

path-Consecutive : Consecutive 32 upgrade_path
unfolding minor_patch
path-Consecutive =
    ((pos 13, refl), ((pos 13, refl), ((pos 12, refl), ((pos 9, refl), ((pos 5, refl), tt)))))

ok_inj : {a b : List String} → ◌≡◌ {A = Result VersionError (List String)} (ok a) (ok b) → a ≡ b
ok_inj h = cc

err_ne_ok :
    {e : VersionError} {a : List String}
    → ◌≡◌ {A = Result VersionError (List String)} (err e) (ok a)
    → ⊥
err_ne_ok h = cc

-- Where `upgradeSteps` returns the steps from a version, each step is newer than the version before
-- it and at most one minor release later, and the steps end at the target version, unless there are
-- none.
pub upgrade_steps-Ascending :
    (cur : String) (v : ℤ × ℤ) (steps : List String)
    → minor_patch cur ≡ some v
    → upgrade_steps cur ≡ ok steps
    → Ascending v steps × EndsAt target_version steps
unfolding upgrade_steps steps_from
upgrade_steps-Ascending cur (negsuc n, cp) steps h k =
    elim (Bool-cases (ltb_ℤ (negsuc n) oldest_minor)) [
      | inl old ↦ absurd (err_ne_ok (rw old at (rw (h, upgrade_steps) at k)))
      | inr new ↦ absurd (ground arith)
    ]
upgrade_steps-Ascending cur (pos n, cp) steps h k = elim (Bool-cases (ltb_ℤ (pos n) oldest_minor)) [
  | inl old ↦ absurd (err_ne_ok (rw old at (rw (h, upgrade_steps) at k)))
  | inr new ↦
      let (a, b) = newer-Kept n 32 cp upgrade_path (ground arith) path-Consecutive in
      let j = rw new at (rw (h, upgrade_steps) at k) in
      subst (λ steps. Ascending (pos n, cp) steps × EndsAt target_version steps) (ok_inj j)
        (a, b "")
]
