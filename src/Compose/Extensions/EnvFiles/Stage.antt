-- ===== src/Compose/Extensions/EnvFiles/Stage.antt =====
-- That `stageEnvFiles` stages every env file under a path of its own.
use orcinus.Prelude.{
  subst, Bool, true, false, String, Option, none, some, List, [], ◌∷◌, ◌≡◌, refl, sym, ◌∙◌, inl,
  inr, if◌then◌else◌, Bool-cases, All,
}
use orcinus.Prelude.Dict.{Dict, lookup}
use orcinus.Prelude.Result.{Result, ok, err}
use orcinus.Value.{Value}
use orcinus.Compose.Config.{EnvFileRef}
use orcinus.Compose.Extensions.Binds.{Process}
use orcinus.Compose.Extensions.EnvFiles.{
  env_file_dest, env_file_entry, rewrite_env_file_entry, not_found, StageError, Staged, add_entry,
  add_ref, source_of, stage_at, stage_entry, stage_entries,
}
use orcinus.Compose.Extensions.EnvFiles.Free.{StillStaged, env_file_dest_lem}

-- Every file that is to be copied is the one staged under its path, and so are the earlier ones.
abbrev pub Kept : Dict String → Dict String → Type 0
Kept dests now = (k : String) → StillStaged (lookup k dests) (lookup k now)

abbrev pub Own : Dict String → EnvFileRef → Type 0
Own dests r = lookup r.dest dests ≡ some r.src

abbrev pub WellStaged : Dict String → Staged → Type 0
WellStaged dests s = Kept dests s.dests × All (Own s.dests) s.refs

StillStaged-refl : (o : Option String) → StillStaged o o
StillStaged-refl none = tt
StillStaged-refl (some v) = refl

StillStaged-trans : (a b c : Option String) → StillStaged a b → StillStaged b c → StillStaged a c
StillStaged-trans none b c h k = tt
StillStaged-trans (some v) none c h k = absurd (cc)
StillStaged-trans (some v) (some w) c h k = k ∙ h

StillStaged-some : (a b : Option String) {v : String} → a ≡ some v → StillStaged a b → b ≡ some v
StillStaged-some none b e h = absurd (cc)
StillStaged-some (some w) b e h = h ∙ e

pair_eq :
    {a b : String} {m n : Dict String}
    → ◌≡◌ {A = Option (String × Dict String)} (some (a, m)) (some (b, n))
    → (a ≡ b) × (m ≡ n)
pair_eq h = (cc, cc)

dest_Kept :
    (path src : String) (dests : Dict String) (dest : String) (dests' : Dict String)
    → env_file_dest path src dests ≡ some (dest, dests')
    → (lookup dest dests' ≡ some src) × Kept dests dests'
dest_Kept path src dests dest dests' h = (own, λ k. kept k)
  where
    kept : (k : String) → StillStaged (lookup k dests) (lookup k dests')
    kept k =
        let (d, m, e, o, s) = env_file_dest_lem path src dests k in
        let (p, q) = pair_eq (sym e ∙ h) in
        subst (λ m. StillStaged (lookup k dests) (lookup k m)) q s

    own : lookup dest dests' ≡ some src
    own =
        let (d, m, e, o, s) = env_file_dest_lem path src dests "" in
        let (p, q) = pair_eq (sym e ∙ h) in
        subst (λ m. lookup dest m ≡ some src) q (subst (λ d. lookup d m ≡ some src) p o)

module _ (os : Process) (exists : String → Bool) (base_dir : String) where
  -- What is known of the loop over the entries behind one.
  abbrev Rest : (Dict String → Result StageError Staged) → Type 0
  Rest next = (dests : Dict String) (s : Staged) → next dests ≡ ok s → WellStaged dests s

  add_entry-WellStaged :
      (e : Value) (dests : Dict String) (r : Result StageError Staged) (s : Staged)
      → ((s' : Staged) → r ≡ ok s' → WellStaged dests s')
      → add_entry e r ≡ ok s
      → WellStaged dests s
  add_entry-WellStaged e dests (err x) s f h = absurd (cc)
  add_entry-WellStaged e dests (ok s') s f h =
      let p : record s' { rewritten = e ∷ s'.rewritten } ≡ s = cc in
      subst (WellStaged dests) p (f s' refl)

  add_ref-WellStaged :
      (src dest : String) (e : Value) (dests dests' : Dict String) (r : Result StageError Staged)
      (s : Staged)
      → (lookup dest dests' ≡ some src) × Kept dests dests'
      → ((s' : Staged) → r ≡ ok s' → WellStaged dests' s')
      → add_ref src e dest r ≡ ok s
      → WellStaged dests s
  add_ref-WellStaged src dest e dests dests' (err x) s kept f h = absurd (cc)
  add_ref-WellStaged src dest e dests dests' (ok s') s (own, kept) f h =
      let (k, refs) = f s' refl in
      let made : Staged = record s' {
        refs = record { src = src; dest = dest } ∷ s'.refs;
        rewritten = rewrite_env_file_entry e dest ∷ s'.rewritten;
      } in
      let p : made ≡ s = cc in
      subst (WellStaged dests) p (
        (λ j.
            StillStaged-trans (lookup j dests) (lookup j dests') (lookup j s'.dests) (kept j)
              (k j)),
        (StillStaged-some (lookup dest dests') (lookup dest s'.dests) own (k dest), refs),
      )

  stage_at-WellStaged :
      (path src : String) (e : Value) (dests : Dict String) (o : Option (String × Dict String))
      (next : Dict String → Result StageError Staged) (s : Staged)
      → env_file_dest path src dests ≡ o
      → Rest next
      → stage_at os exists base_dir src e o next ≡ ok s
      → WellStaged dests s
  unfolding stage_at
  stage_at-WellStaged path src e dests none next s q rest h = absurd (cc)
  stage_at-WellStaged path src e dests (some (dest, dests')) next s q rest h =
      add_ref-WellStaged src dest e dests dests' (next dests') s
        (dest_Kept path src dests dest dests' q) (rest dests') h

  stage_entry-WellStaged :
      (e : Value) (dests : Dict String) (o : Option (String × Bool))
      (next : Dict String → Result StageError Staged) (s : Staged)
      → Rest next
      → stage_entry os exists base_dir e dests o next ≡ ok s
      → WellStaged dests s
  unfolding stage_entry
  stage_entry-WellStaged e dests none next s rest h =
      add_entry-WellStaged e dests (next dests) s (rest dests) h
  stage_entry-WellStaged e dests (some (path, required)) next s rest h =
      let src : String = source_of os base_dir path in
      elim (Bool-cases (exists src)) [
        | inl found ↦
            stage_at-WellStaged path src e dests (env_file_dest path src dests) next s refl rest
              (rw found at h)
        | inr missing ↦ skip required (rw missing at h)
      ]
    where
      skip :
          (required : Bool)
          → (if required then err (not_found path (source_of os base_dir path)) else next dests)
            ≡ ok s
          → WellStaged dests s
      skip true h = absurd (cc)
      skip false h = rest dests s h

  -- Where the loop of `stageEnvFiles` returns no error, each file that it reports is the one staged
  -- under its path, so that no two files have one path; and every path that was staged before, for
  -- another service or another compose file, is still staged for the same file.
  pub stage_entries-WellStaged :
      (es : List Value) (dests : Dict String) (s : Staged)
      → stage_entries os exists base_dir es dests ≡ ok s
      → WellStaged dests s
  unfolding stage_entries
  stage_entries-WellStaged [] dests s h =
      let made : Staged = record { refs = []; rewritten = []; dests = dests } in
      let p : made ≡ s = cc in
      subst (WellStaged dests) p ((λ k. StillStaged-refl (lookup k dests)), tt)
  stage_entries-WellStaged (e ∷ es) dests s h =
      stage_entry-WellStaged e dests (env_file_entry e) (λ d. stage_entries os exists base_dir es d)
        s (λ d s' q. stage_entries-WellStaged es d s' q) h
