-- ===== src/Deploy/Apply/Order.antt =====
-- `Apply` handles its objects in order and stops at the first failure.
use orcinus.Prelude.{
  String, none, some, List, [], ◌∷◌, ◌++◌, ◌≡◌, refl, sym, ap, ◌∙◌, ◌⊎◌, inl, inr, append_assoc,
  append-nil,
}
use orcinus.Prelude.Result.{Result, ok, err}
use orcinus.Deploy.Api.{Machinery, Cluster}
use orcinus.Deploy.Prune.{AppliedRef}
use orcinus.Deploy.Wait.{Clock}
use orcinus.Deploy.Apply.{ApplyError, Discovery, Outcome, apply_one, apply_objects}

module _ (c : Cluster) (m : Machinery) (k : Clock c) {R : Type 0} (d : Discovery c R)
    (ns : String) where
  -- The objects are applied one after the other, each to the state that the one before it left.
  pub data Applied : c.State → List R → List AppliedRef → c.State → Type 0 where
    nothing : {s : c.State} → Applied s [] [] s
    one_more :
        {objects : List R} {refs : List AppliedRef} {s t u : c.State} {obj : R} {r : AppliedRef}
        → apply_one c m k d ns obj s ≡ (t, ok r)
        → Applied t objects refs u
        → Applied s (obj ∷ objects) (r ∷ refs) u

  -- The objects before a failing one are applied, and none of those behind it is tried.
  pub record Stopped (s : c.State) (objects : List R) (e : ApplyError) (t : c.State) : Type 0 where
    pub before : List R
    pub culprit : R
    pub untried : List R
    pub refs : List AppliedRef
    pub last : c.State
    pub splits : objects ≡ before ++ culprit ∷ untried
    pub applied : Applied s before refs last
    pub fails : apply_one c m k d ns culprit last ≡ (t, err e)

  Stopped-cons :
      {s t u : c.State} {objects : List R} {e : ApplyError} {r : AppliedRef} (obj : R)
      → apply_one c m k d ns obj s ≡ (t, ok r)
      → Stopped t objects e u
      → Stopped s (obj ∷ objects) e u
  Stopped-cons {r = r} obj p x = record {
    before = obj ∷ x.before;
    culprit = x.culprit;
    untried = x.untried;
    refs = r ∷ x.refs;
    last = x.last;
    splits = ap (◌∷◌ obj) x.splits;
    applied = one_more p x.applied;
    fails = x.fails;
  }

  -- The two ways in which the loop over the objects ends.
  abbrev pub Applies : c.State → List R → List AppliedRef → Outcome c.State → Type 0
  Applies s objects earlier o =
      ((refs : List AppliedRef) × (o.error ≡ none)
        × (o.applied ≡ earlier ++ refs)
        × Applied s objects refs o.state)
      ⊎ ((e : ApplyError) × (o.error ≡ some e) × (o.applied ≡ []) × Stopped s objects e o.state)

  Applies-cons :
      (s t : c.State) (obj : R) (r : AppliedRef) (rest : List R) (earlier : List AppliedRef)
      (o : Outcome c.State)
      → apply_one c m k d ns obj s ≡ (t, ok r)
      → Applies t rest (earlier ++ r ∷ []) o
      → Applies s (obj ∷ rest) earlier o
  Applies-cons s t obj r rest earlier o p (inl (refs, fine, same, a)) =
      inl (r ∷ refs, fine, same ∙ append_assoc earlier (r ∷ []) refs, one_more p a)
  Applies-cons s t obj r rest earlier o p (inr (e, wrong, same, x)) =
      inr (e, wrong, same, Stopped-cons obj p x)

  -- The loop of `Apply` over the objects either succeeds, with one reference for each object in
  -- order, every object applied to the state that the one before it left; or it stops at the first
  -- object that fails, with that object's error and no references, the objects before it applied
  -- and those behind it untried.
  pub apply_objects_lem :
      (s : c.State) (objects : List R) (earlier : List AppliedRef)
      → Applies s objects earlier (apply_objects c m k d ns objects earlier s)
  unfolding apply_objects
  apply_objects_lem s [] earlier = inl ([], refl, sym (append-nil earlier), nothing)
  apply_objects_lem s (obj ∷ rest) earlier =
      go (apply_one c m k d ns obj s).1 refl
        (λ r. apply_objects_lem (apply_one c m k d ns obj s).0 rest (earlier ++ r ∷ []))
    where
      next : c.State
      next = (apply_one c m k d ns obj s).0

      go :
          (result : Result ApplyError AppliedRef)
          → (apply_one c m k d ns obj s).1 ≡ result
          → ((r : AppliedRef)
              → Applies next rest
                  (earlier ++ r ∷ [])
                  (apply_objects c m k d ns rest (earlier ++ r ∷ []) next))
          → Applies s (obj ∷ rest) earlier (apply_objects c m k d ns (obj ∷ rest) earlier s)
      go (ok r) e later =
          rw (e, apply_objects)
            (Applies-cons s next obj r rest earlier
              (apply_objects c m k d ns rest (earlier ++ r ∷ []) next) (λ i. (next, e i)) (later r))
      go (err x) e later =
          rw (e, apply_objects)
            (inr (
              x,
              refl,
              refl,
              record {
                before = [];
                culprit = obj;
                untried = rest;
                refs = [];
                last = s;
                splits = refl;
                applied = nothing;
                fails = λ i. (next, e i);
              },
            ))
