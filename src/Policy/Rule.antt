-- ===== src/Policy/Rule.antt =====
-- The rules, the policy of a collection and the policy file; the identity and the documents that
-- decisions look at (crates/hakobackend-core/src/lib.rs).
use hakobackend.Base.{Option, none, List, [], nat_Eq, Str, str_Eq, pair_Eq}
use hakobackend.Base.Map.{Map}
use hakobackend.Json.{Value}
use hakobackend.Json.Int.{ℤ}

-- `FieldCond`
pub data FieldCond : Type 0 where
  eq_auth : Str → Str → FieldCond
  eq_lit : Str → Value → FieldCond
  int_range : Str → ℤ → ℤ → FieldCond

-- `Rule`: `claim field values strip`, `uid_self strip`, `fields conds strip`
pub data Rule : Type 0 where
  public auth deny : Rule
  claim : Str → List Str → List Str → Rule
  uid_self : List Str → Rule
  fields : List FieldCond → List Str → Rule

-- `Method`
pub data Method : Type 0 where
  get list create update delete : Method

pub record Defaults : Type 0 where
  pub read : Rule
  pub write : Rule

pub record CollectionPolicy : Type 0 where
  pub get : Option Rule
  pub list : Option Rule
  pub create : Option Rule
  pub update : Option Rule
  pub delete : Option Rule
  pub read : Option Rule
  pub write : Option Rule

-- `CollectionPolicy::default()`
abbrev pub empty_policy : CollectionPolicy
empty_policy = record {
  get = none;
  list = none;
  create = none;
  update = none;
  delete = none;
  read = none;
  write = none;
}

-- `PolicyFile`, less `identity` and `performance`, which no decision reads
pub record PolicyFile : Type 0 where
  pub defaults : Defaults
  pub collections : Map Str CollectionPolicy

-- `PolicyFile::default()`: `Defaults::default()` denies
abbrev pub closed : PolicyFile
closed = record { defaults = record { read = deny; write = deny }; collections = [] }

-- `PolicyFile::open()`
abbrev pub open_policy : PolicyFile
open_policy = record { defaults = record { read = public; write = public }; collections = [] }

pub record AuthContext : Type 0 where
  pub uid : Str
  pub extra : Map Str Value

pub record Doc : Type 0 where
  pub id : Str
  pub contents : Map Str Value
