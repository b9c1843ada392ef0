-- ===== src/Endpoints/Tokens.antt =====
-- crates/hakobackend-server/src/main.rs: what a request's token is worth (`resolve_token`,
-- `enforce_dpop`), and which hosts and origins are let in.
use hakobackend.Base.{
  ℕ, Bool, true, false, not, ◌||◌, Option, none, some, List, [], ◌∷◌, ◌++◌, if◌then◌else◌, any,
  and_then, is_some, is_some_and, unwrap_or, first, is_ok, nat_Eq, Str, str, str_eq, str_Eq,
  pair_Eq,
}
use hakobackend.Base.Map
use hakobackend.Base.Map.{
  Map, get-insert, get-remove, Unique, get-retain, insert-Unique, remove-Unique, retain-Unique,
}
use hakobackend.Text.{strip_prefix, split, split_once}
use hakobackend.Json.{Value, as_str}
use hakobackend.Policy.Rule.{AuthContext}
use hakobackend.Database.{Database}
use hakobackend.TokenCache
use hakobackend.TokenCache.{TokenCache}
use hakobackend.Replay.{ReplayCache}
use hakobackend.Sessions.{DpopRequest, Crypto, Config}
use hakobackend.Sessions.Accounts.{check_dpop}
use hakobackend.Handlers.Batch.{lower}

-- `DpopMode`
pub data DpopMode : Type 0 where
  off accept require : DpopMode

-- `DpopAction`
pub data DpopAction : Type 0 where
  keeps strips must_verify : DpopAction

-- `dpop_action`
abbrev pub dpop_action : DpopMode → Bool → Bool → DpopAction
dpop_action off is_local has_proof = keeps
dpop_action accept false has_proof = keeps
dpop_action require false has_proof = keeps
dpop_action require true false = strips
dpop_action accept true true = must_verify
dpop_action require true true = must_verify
dpop_action accept true false = keeps

abbrev pub is_off : DpopMode → Bool
is_off off = true
is_off _ = false

-- the caller was let in by the local issuer
unfoldable pub is_local : Option AuthContext → Bool
unfolding Map.get str_eq
is_local ctx =
    is_some_and (and_then (and_then ctx (λ c. Map.get (str "provider") c.extra)) as_str)
      (λ p. str_eq p (str "local"))

module _ {W : Type 0} (db : Database W) (crypto : Crypto) (cfg : Config)
    (verify_access_proof : DpopRequest → Str → Option (Str × Str))
    (bound_jkt : Str → Option Str) where
  -- a proof that `check_dpop` accepts for this token, and the replay cache after it
  unfoldable pub proved : DpopMode → Option DpopRequest → Str → ℕ → ReplayCache → Bool × ReplayCache
  unfolding check_dpop
  proved mode none token t replay = (false, replay)
  proved mode (some d) token t replay =
      let r =
        check_dpop db crypto cfg verify_access_proof (is_off mode) d token (bound_jkt token) t
          replay in
      (is_ok r.0, r.1)

  -- `enforce_dpop`
  unfoldable pub enforce_dpop :
      Bool
      → DpopMode
      → Option DpopRequest
      → Option Str
      → Option AuthContext
      → ℕ
      → ReplayCache
      → Option AuthContext × ReplayCache
  unfolding is_local proved
  enforce_dpop local_active mode proof token ctx t replay = elim token [
    | none ↦ (ctx, replay)
    | some tok ↦
        if not local_active || is_off mode
        then (ctx, replay)
        else elim (dpop_action mode (is_local ctx) (is_some proof)) [
          | keeps ↦ (ctx, replay)
          | strips ↦ (none, replay)
          | must_verify ↦
              let r = proved mode proof tok t replay in ((if r.0 then ctx else none), r.1)
        ]
  ]

-- `resolve_token`; `chain` is what the providers answer
unfoldable pub resolve_token :
    (Str → Str)
    → (Str → Option Value)
    → (Str → Option AuthContext)
    → Str
    → ℕ
    → ℕ
    → TokenCache
    → Option AuthContext × TokenCache
unfolding TokenCache.get TokenCache.put
resolve_token digest from_slice chain token unix now cache =
    let r = TokenCache.get digest cache token now in
    elim r.0 [
      | some hit ↦ (hit, r.1)
      | none ↦ (chain token, TokenCache.put digest from_slice r.1 token (chain token) unix now)
    ]

-- `strip_host_port`: one colon ends a host, several are an address
unfoldable pub strip_host_port : Str → Str
unfolding strip_prefix split_once split
strip_host_port h = elim (strip_prefix (str "[") h) [
  | some rest ↦ elim (split_once b']' rest) [ some x ↦ x.0 | none ↦ h ]
  | none ↦ elim (split b':' h) [ host ∷ port ∷ [] ↦ host | _ ↦ h ]
]

abbrev pub eq_ignore_case : Str → Str → Bool
eq_ignore_case a b = str_eq (lower a) (lower b)

-- `host_allowed`
unfoldable pub host_allowed : List Str → Option Str → Bool
unfolding strip_host_port str_eq any
host_allowed [] host = true
host_allowed (a ∷ allowed) none = false
host_allowed (a ∷ allowed) (some h) =
    let bare = strip_host_port h in
    str_eq bare (str "localhost")
    || str_eq bare (str "127.0.0.1")
    || str_eq bare (str "::1")
    || any (λ b. eq_ignore_case b bare) (a ∷ allowed)

-- `strip_port`
unfoldable pub strip_port : Str → Str
unfolding strip_prefix split_once split
strip_port h = elim (strip_prefix (str "[") h) [
  | some rest ↦ elim (split_once b']' rest) [ some x ↦ str "[" ++ x.0 ++ str "]" | none ↦ h ]
  | none ↦ elim (split b':' h) [ host ∷ port ∷ [] ↦ host | _ ↦ h ]
]

-- `query_token_allowed`; `host` is the header
unfoldable pub query_token_allowed : Bool → Option Str → Bool
unfolding split str_eq
query_token_allowed tls host =
    tls
    || is_some_and host (λ h.
      let name = unwrap_or (first (split b':' h)) [] in
      str_eq name (str "localhost") || str_eq name (str "127.0.0.1") || str_eq name (str "[::1]"))
