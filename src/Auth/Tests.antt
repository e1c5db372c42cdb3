-- ===== src/Auth/Tests.antt =====
-- Runs of the token scopes: one token of each scope.
use aether_engine.Prelude.{String, ◌≡◌, ◌↔◌, refl, true, List, [], ◌∷◌, some}
use aether_engine.Prelude.Result.{ok, err}
use aether_engine.Prelude.HashMap.{insert, get}
use aether_engine.Auth.{Scope, read, operator, Auth, from_env, scope_required, require}
use aether_engine.Auth.Decision.{Holds, Allows, Denies, require_iff}

abbrev lines : List (List String)
lines = ("#" ∷ "tokens" ∷ []) ∷ [] ∷ ("r1" ∷ "read" ∷ []) ∷ ("o1" ∷ "operator" ∷ []) ∷ []

abbrev loaded : Auth
loaded = record { tokens = ("r1", read) ∷ ("o1", operator) ∷ []; enabled = true }

loads : from_env (some lines) ≡ ok loaded
unfolding from_env insert
loads = refl

require_iff_example :
    ((require loaded (some "Bearer r1") operator ≡ ok tt)
      ↔ ((scope : Scope) × Holds loaded (some "Bearer r1") scope × Allows scope operator))
    × ((require loaded (some "Bearer r1") operator ≡ err (scope_required operator))
        ↔ ((scope : Scope) × Holds loaded (some "Bearer r1") scope × Denies scope operator))
require_iff_example = require_iff loaded (some "Bearer r1") operator refl

operator_passes : require loaded (some "Bearer o1") operator ≡ ok tt
unfolding require get
operator_passes = refl
