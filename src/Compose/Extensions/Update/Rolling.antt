-- ===== src/Compose/Extensions/Update/Rolling.antt =====
-- The two limits of a rolling update that `parseUpdateConfig` sets.
use orcinus.Prelude.{
  ◌<◌, ◌^◌, Option, none, some, ◌≡◌, ◌≢◌, refl, ◌⊎◌, inl, inr, arith, ◌==◌, Bool-cases,
}
use orcinus.Prelude.Int.{ℤ, pos, negsuc, ltb_ℤ, pos_part}
use orcinus.Prelude.Decimal.{decimal}
use orcinus.Prelude.Decimal.Read.{decimal_positive}
use orcinus.Prelude.Dict.{Dict}
use orcinus.Value.{Value, as_object, at}
use orcinus.Compose.Config.{StrategyCfg}
use orcinus.Compose.Extensions.Scalars.{string_ext, int_ext}
use orcinus.Compose.Extensions.Update.{
  Durations, or_text, positive_or_one, update_knobs, parse_update_config,
}

-- A 64-bit integer, if there is one.
abbrev pub Int64 : Option ℤ → Type 0
Int64 none = Unit
Int64 (some n) = pos_part n < 2 ^ 63

-- One limit is zero, and the other is not, so the update makes progress.
abbrev pub Moves : StrategyCfg → Type 0
Moves sc =
    (sc.type ≡ "rolling")
    × (((sc.max_surge ≢ "0") × (sc.max_unavailable ≡ "0"))
        ⊎ ((sc.max_surge ≡ "0") × (sc.max_unavailable ≢ "0")))

one_printed : decimal (pos 1) ≢ "0"
one_printed = decimal_positive 1 (omega arith) (omega arith)

count_not_zero : (n : Option ℤ) → Int64 n → decimal (positive_or_one n) ≢ "0"
count_not_zero none h = one_printed
count_not_zero (some (negsuc n)) h = elim (Bool-cases (ltb_ℤ (pos 0) (negsuc n))) [
  | inl e ↦ absurd (ground arith)
  | inr e ↦ rw e one_printed
]
count_not_zero (some (pos n)) h = elim (Bool-cases (ltb_ℤ (pos 0) (pos n))) [
  | inl e ↦ rw e (decimal_positive n h (ground arith))
  | inr e ↦ rw e one_printed
]

update_knobs-Moves :
    (parse : Durations) (uc : Dict Value) (sc : StrategyCfg)
    → Int64 (int_ext (at "parallelism" uc))
    → Moves (update_knobs parse uc sc)
unfolding update_knobs
update_knobs-Moves parse uc sc h =
    elim (Bool-cases (or_text (string_ext (at "order" uc)) "" == "start-first")) [
      | inl e ↦ rw e (refl, inl (count_not_zero (int_ext (at "parallelism" uc)) h, refl))
      | inr e ↦ rw e (refl, inr (refl, count_not_zero (int_ext (at "parallelism" uc)) h))
    ]

-- Where a service has an `update_config` whose parallelism, if it is a number, is a 64-bit integer,
-- the strategy that `parseUpdateConfig` makes is a rolling one, and exactly one of its two limits is
-- zero, whatever the order and the parallelism are.
pub parse_update_config-Moves :
    (parse : Durations) (svc deploy uc : Dict Value) (sc : StrategyCfg)
    → as_object (at "deploy" svc) ≡ some deploy
    → as_object (at "update_config" deploy) ≡ some uc
    → Int64 (int_ext (at "parallelism" uc))
    → Moves (parse_update_config parse svc sc)
unfolding parse_update_config
parse_update_config-Moves parse svc deploy uc sc h k b =
    rw (h, k, parse_update_config) (update_knobs-Moves parse uc sc b)
