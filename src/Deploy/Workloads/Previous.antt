-- ===== src/Deploy/Workloads/Previous.antt =====
-- The revision that a rollback returns to.
use orcinus.Prelude.{
  true, false, ◌&&◌, String, Option, none, some, List, [], ◌∷◌, ◌≡◌, refl, ◌⊎◌, inl, inr, arith,
  Bool-cases, All, Some,
}
use orcinus.Prelude.Int.{ℤ, negsuc, ltb_ℤ, leb_ℤ}
use orcinus.Prelude.Result.{err}
use orcinus.Deploy.Workloads.{
  deployment, Running, ReplicaSet, WorkloadApi, no_previous, revision_of, newest_below,
  without_hash, previous_of, answer, previous_rs_template, put_template, rollback_by, rollback,
}

module _ (anno : String) (cur : ℤ) where
  abbrev rev : ReplicaSet → ℤ
  rev r = revision_of anno r.annotations

  -- No ReplicaSet of an earlier revision than the current is of a later one than `top`.
  abbrev pub NoneAbove : ℤ → List ReplicaSet → Type 0
  NoneAbove top rs = All (λ x. ltb_ℤ (rev x) cur ≡ true → leb_ℤ (rev x) top ≡ true) rs

  -- The ReplicaSet of the latest revision before the current one.
  pub record Newest (rs : List ReplicaSet) (r : ReplicaSet) : Type 0 where
    pub is_listed : Some (λ x. x ≡ r) rs
    pub is_older : ltb_ℤ (rev r) cur ≡ true
    pub is_newest : NoneAbove (rev r) rs

  -- How the loop ends from a best ReplicaSet and its revision.
  abbrev Ends : Option ReplicaSet → ℤ → List ReplicaSet → Option ReplicaSet → Type 0
  Ends best top rs res =
      ((res ≡ best) × NoneAbove top rs)
      ⊎ ((r : ReplicaSet) × (res ≡ some r) × (ltb_ℤ top (rev r) ≡ true) × Newest rs r)

  taken-Ends :
      (best : Option ReplicaSet) (top : ℤ) (r : ReplicaSet) (rs : List ReplicaSet)
      (res : Option ReplicaSet)
      → (ltb_ℤ (rev r) cur && ltb_ℤ top (rev r)) ≡ true
      → Ends (some r) (rev r) rs res
      → Ends best top (r ∷ rs) res
  taken-Ends best top r rs res h (inl (same, none_above)) = inr (
    r,
    same,
    ground arith,
    record {
      is_listed = inl refl;
      is_older = ground arith;
      is_newest = (λ _. ground arith, none_above);
    },
  )
  taken-Ends best top r rs res h (inr (q, same, later, n)) = inr (
    q,
    same,
    ground arith,
    record {
      is_listed = inr n.is_listed;
      is_older = n.is_older;
      is_newest = (λ _. ground arith, n.is_newest);
    },
  )

  passed-Ends :
      (best : Option ReplicaSet) (top : ℤ) (r : ReplicaSet) (rs : List ReplicaSet)
      (res : Option ReplicaSet)
      → (ltb_ℤ (rev r) cur && ltb_ℤ top (rev r)) ≡ false
      → Ends best top rs res
      → Ends best top (r ∷ rs) res
  passed-Ends best top r rs res h (inl (same, none_above)) =
      inl (same, (λ older. ground arith, none_above))
  passed-Ends best top r rs res h (inr (q, same, later, n)) = inr (
    q,
    same,
    later,
    record {
      is_listed = inr n.is_listed;
      is_older = n.is_older;
      is_newest = (λ older. ground arith, n.is_newest);
    },
  )

  newest_below-Ends :
      (best : Option ReplicaSet) (top : ℤ) (rs : List ReplicaSet)
      → Ends best top rs (newest_below anno cur best top rs)
  unfolding newest_below
  newest_below-Ends best top [] = inl (refl, tt)
  newest_below-Ends best top (r ∷ rs) = elim (Bool-cases (ltb_ℤ (rev r) cur && ltb_ℤ top (rev r))) [
    | inl e ↦ simp e (taken-Ends best top r rs _ e (newest_below-Ends (some r) (rev r) rs))
    | inr e ↦ simp e (passed-Ends best top r rs _ e (newest_below-Ends best top rs))
  ]

-- A rollback of a Deployment whose ReplicaSets are listed writes the pod template of the ReplicaSet
-- of the latest revision before the Deployment's own, without the hash label, and nothing else of the
-- Deployment; if no ReplicaSet is of an earlier revision that is not negative, it fails and changes
-- nothing.
pub rollback-Newest :
    (a : WorkloadApi) (ns name : String) (s : a.State) (w : Running) (rs : List ReplicaSet)
    → a.get deployment ns name s ≡ some w
    → a.replica_sets ns w.selector s ≡ some rs
    → ((r : ReplicaSet) × Newest "deployment.kubernetes.io/revision"
          (revision_of "deployment.kubernetes.io/revision" w.annotations)
          rs
          r
        × (rollback a ns name s
            ≡ answer a deployment (
                a.update deployment ns
                  (record w { template = without_hash "pod-template-hash" r })
                  s)))
      ⊎ (NoneAbove "deployment.kubernetes.io/revision"
            (revision_of "deployment.kubernetes.io/revision" w.annotations)
            (negsuc 0)
            rs
          × (rollback a ns name s ≡ (s, err no_previous)))
unfolding rollback rollback_by put_template previous_rs_template previous_of
rollback-Newest a ns name s w rs found listed =
    elim (newest_below-Ends "deployment.kubernetes.io/revision"
      (revision_of "deployment.kubernetes.io/revision" w.annotations) none (negsuc 0) rs) [
        | inl (same, none_above) ↦ inr (
          none_above,
          simp (
            rollback, rollback_by, previous_rs_template, previous_of, put_template, found, listed,
            same,
          ),
        )
        | inr (r, same, later, n) ↦ inl (
          r,
          n,
          simp (
            rollback, rollback_by, previous_rs_template, previous_of, put_template, found, listed,
            same,
          ),
        )
      ]
