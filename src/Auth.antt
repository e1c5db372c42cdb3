-- ===== src/Auth.antt =====
-- crates/coordinator/src/auth.rs: the scopes of bearer tokens. The token file is given as the words of
-- its trimmed lines (`split_whitespace`), and a request as the text of its `authorization` metadata.
pub mod Decision
pub mod Tests
use Prim.Native.String.{slice, len}
use text.Mathlib.Text.{starts_with}
use aether_engine.Prelude.{
  ℕ, String, Bool, true, false, List, [], ◌∷◌, Option, none, some, if◌then◌else◌, leb, string_eq,
  ◌==◌, is_empty,
}
use aether_engine.Prelude.HashMap
use aether_engine.Prelude.HashMap.{HashMap}
use aether_engine.Prelude.Result.{Result, ok, err}

pub data Scope : Type 0 where
  read operator : Scope

abbrev pub rank : Scope → ℕ
rank read = 1
rank operator = 2

-- Does a token that holds the first scope satisfy a requirement of the second?
unfoldable pub satisfies : Scope → Scope → Bool
satisfies held needed = leb (rank needed) (rank held)

-- `Scope::parse`.
unfoldable pub parse : String → Option Scope
parse s = if s == "read" then some read else if s == "operator" then some operator else none

pub record Auth : Type 0 where
  pub tokens : HashMap String Scope
  pub enabled : Bool

-- `Auth::default()`.
abbrev pub disabled : Auth
disabled = record { tokens = []; enabled = false }

pub data LoadError : Type 0 where
  bad_token_line : List String → LoadError
  unknown_scope : String → LoadError
  no_tokens : LoadError

-- One round of the loop of `from_env` with the rounds that follow; words behind the second are ignored.
unfoldable pub load_lines :
    HashMap String Scope → List (List String) → Result LoadError (HashMap String Scope)
unfolding parse
load_lines tokens [] = ok tokens
load_lines tokens ([] ∷ lines) = load_lines tokens lines
load_lines tokens ((token ∷ []) ∷ lines) =
    let rest = load_lines tokens lines in
    if starts_with token "#" then rest else err (bad_token_line (token ∷ []))
load_lines tokens ((token ∷ scope ∷ words) ∷ lines) =
    let skipped = load_lines tokens lines in
    if starts_with token "#" then skipped else elim (parse scope) [
      | none ↦ err (unknown_scope scope)
      | some s ↦ load_lines (HashMap.insert tokens token s) lines
    ]

-- `from_env`, with the lines of the file if the variable is set.
unfoldable pub from_env : Option (List (List String)) → Result LoadError Auth
unfolding load_lines
from_env none = ok disabled
from_env (some lines) = elim (load_lines [] lines) [
  | err e ↦ err e
  | ok tokens ↦
      if is_empty tokens then err no_tokens else ok (record { tokens = tokens; enabled = true })
]

-- The two codes that `require` answers with.
pub data Status : Type 0 where
  missing_bearer_token unknown_token : Status
  scope_required : Scope → Status

-- `strip_prefix("Bearer ")`.
unfoldable pub bearer : Option String → Option String
bearer none = none
bearer (some header) =
    if starts_with header "Bearer " then some (slice header (len "Bearer ") (len header)) else none

unfoldable pub require : Auth → Option String → Scope → Result Status (Unit {0})
unfolding satisfies bearer
require auth header needed =
    if auth.enabled
    then elim (bearer header) [
      | none ↦ err missing_bearer_token
      | some token ↦ elim (HashMap.get auth.tokens token) [
        | none ↦ err unknown_token
        | some scope ↦ if satisfies scope needed then ok tt else err (scope_required needed)
      ]
    ]
    else ok tt
