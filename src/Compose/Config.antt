-- ===== src/Compose/Config.antt =====
-- The hints of pkg/compose/extensions.go that one service's `x-orcinus-*` keys are read into.
use orcinus.Prelude.{Bool, false, ◌||◌, not, String, List, [], ◌==◌, is_nil}
use orcinus.Prelude.Int.{ℤ, pos, is_zero_ℤ}

-- `ingressCfg`.
pub record IngressCfg : Type 0 where
  pub tls : String
  pub tls_secret : String
  pub path : String
  pub port : ℤ
  pub class : String
  pub strip_from_path : Bool
  pub strip_prefixes : List String
  pub middlewares : List String

abbrev pub no_ingress : IngressCfg
no_ingress = record {
  tls = "";
  tls_secret = "";
  path = "";
  port = pos 0;
  class = "";
  strip_from_path = false;
  strip_prefixes = [];
  middlewares = [];
}

-- `ingressCfg.isSet`.
unfoldable pub is_set : IngressCfg → Bool
is_set c =
    not (c.tls == "")
    || not (c.tls_secret == "")
    || not (c.path == "")
    || not (c.class == "")
    || not (is_zero_ℤ c.port)
    || c.strip_from_path
    || not (is_nil c.strip_prefixes)
    || not (is_nil c.middlewares)

pub record BindMount : Type 0 where
  pub name : String
  pub source : String
  pub target : String
  pub read_only : Bool

pub record NodeConstraint : Type 0 where
  pub key : String
  pub operator : String
  pub values : List String

pub record PlacementCfg : Type 0 where
  pub constraints : List NodeConstraint
  pub spread_keys : List String

pub record VmCfg : Type 0 where
  pub run_strategy : String
  pub disk_size : String
  pub cloud_init : String
  pub ssh_secret : String
  pub ssh_users : List String

pub record AutoscaleCfg : Type 0 where
  pub min : ℤ
  pub max : ℤ
  pub cpu : ℤ
  pub memory : ℤ

pub record StrategyCfg : Type 0 where
  pub type : String
  pub max_surge : String
  pub max_unavailable : String
  pub min_ready_seconds : ℤ
  pub progress_deadline : ℤ

abbrev pub no_strategy : StrategyCfg
no_strategy = record {
  type = "";
  max_surge = "";
  max_unavailable = "";
  min_ready_seconds = pos 0;
  progress_deadline = pos 0;
}

-- `envFileRef`.
pub record EnvFileRef : Type 0 where
  pub src : String
  pub dest : String
