-- ===== src/Detect.antt =====
-- What a YAML document is: pkg/detect/detect.go.
use orcinus.Prelude.{◌&&◌, not, String, Option, none, some, List, [], ◌∷◌, ◌==◌, if◌then◌else◌}
use orcinus.Prelude.{trim_space}
use orcinus.Prelude.Dict.{Dict}
use orcinus.Prelude.Result.{Result, ok, err}
use orcinus.Value.{Value}

pub data Kind : Type 0 where
  compose : Kind
  manifest : Kind

pub data Mode : Type 0 where
  auto : Mode
  force_compose : Mode
  force_manifest : Mode

pub data DetectError : Type 0 where
  invalid_mode : String → DetectError
  unreadable : DetectError
  no_kind : DetectError

unfoldable pub parse_mode : String → Result DetectError Mode
parse_mode s =
    if s == ""
    then ok auto
    else if s == "compose"
    then ok force_compose
    else if s == "manifest"
    then ok force_manifest
    else err (invalid_mode s)

-- The struct that `Classify` unmarshals into; none is a nil map.
pub record Probe : Type 0 where
  pub api_version : String
  pub kind : String
  pub services : Option (Dict Value)

-- The YAML library: the documents of a stream, and `yaml.Unmarshal` into the probe and into a map.
pub record Yaml : Type 0 where
  pub documents : String → Option (List String)
  pub probe : String → Option Probe
  pub fields : String → Option (Dict Value)

-- The documents that are not blank.
unfoldable pub not_blank : List String → List String
unfolding trim_space
not_blank [] = []
not_blank (doc ∷ docs) =
    let rest = not_blank docs in if trim_space doc == "" then rest else doc ∷ rest

module _ (y : Yaml) where
  unfoldable pub split_documents : String → Result DetectError (List String)
  unfolding not_blank
  split_documents text = elim (y.documents text) [
    | none ↦ err unreadable
    | some docs ↦ ok (not_blank docs)
  ]

  unfoldable pub kind_of_probe : Option Probe → Result DetectError Kind
  kind_of_probe none = err unreadable
  kind_of_probe (some p) =
      if not (p.api_version == "") && not (p.kind == "")
      then ok manifest
      else elim p.services [ some services ↦ ok compose | none ↦ err no_kind ]

  unfoldable pub classify : String → Mode → Result DetectError Kind
  unfolding kind_of_probe
  classify doc auto = kind_of_probe (y.probe doc)
  classify doc force_compose = ok compose
  classify doc force_manifest = ok manifest
