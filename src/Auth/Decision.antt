-- ===== src/Auth/Decision.antt =====
-- Who passes, and that a configured coordinator is never open.
use Prim.Native.String.{◌++◌, slice, len}
use text.Mathlib.Text.{starts_with}
use text.Mathlib.TextLemmas.{append-nil}
use text.Mathlib.TextPositions.{len-append, slice-append_middle, starts_with-append}
use text.Mathlib.TextEquality.{starts_with_iff}
use aether_engine.Prelude.{
  ◌+◌, ◌≡◌, ◌≢◌, ◌↔◌, ◌⊎◌, inl, inr, refl, sym, ap, ◌∙◌, String, Bool, true, false, List, [],
  Option, none, some, if◌then◌else◌, arith, nat_eq, string_eq, Option-cases, Bool-cases,
}
use aether_engine.Prelude.HashMap.{get}
use aether_engine.Prelude.Result.{Result, ok, err}
use aether_engine.Auth.{
  Scope, read, operator, satisfies, Auth, from_env, Status, missing_bearer_token, unknown_token,
  scope_required, bearer, require,
}

-- The request carries a token that the table knows, with the scope.
abbrev pub Holds : Auth → Option String → Scope → Type 0
Holds auth header scope =
    (token : String) × (header ≡ some ("Bearer " ++ token)) × (get auth.tokens token ≡ some scope)

bearer-append : (token : String) → bearer (some ("Bearer " ++ token)) ≡ some token
unfolding bearer
bearer-append token =
    let rest : slice ("Bearer " ++ token) (len "Bearer ") (len ("Bearer " ++ token)) ≡ token =
      ap (slice ("Bearer " ++ token) (len "Bearer ")) (len-append "Bearer " token)
      ∙ ap (λ t. slice ("Bearer " ++ t) (len "Bearer ") (len "Bearer " + len token))
          (sym (append-nil token))
      ∙ slice-append_middle "Bearer " token "" in
    rw (starts_with-append "Bearer " token) (ap some rest)

bearer_header :
    (header : Option String) (token : String)
    → bearer header ≡ some token
    → header ≡ some ("Bearer " ++ token)
unfolding bearer
bearer_header none token e = cc e
bearer_header (some h) token e = elim (Bool-cases (starts_with h "Bearer ")) [
  | inl p ↦
      let (u, same) = (starts_with_iff h "Bearer ").0 p in
      let own : some u ≡ some token = sym (bearer-append u) ∙ ap (λ s. bearer (some s)) same ∙ e in
      sym (ap some same) ∙ cc own
  | inr p ↦ absurd (ground (arith, p, e))
]

ok_is_not-err : {E A : Type 0} {a : A} {e : E} → ¬ (ok a ≡ err e)
ok_is_not-err h = cc h

module _ (auth : Auth) (header : Option String) (needed : Scope) (on : auth.enabled ≡ true) where
  no_token : bearer header ≡ none → require auth header needed ≡ err missing_bearer_token
  unfolding require
  no_token e = rw (on, e, require) refl

  stranger :
      (token : String)
      → bearer header ≡ some token
      → get auth.tokens token ≡ none
      → require auth header needed ≡ err unknown_token
  unfolding require
  stranger token e g = rw (on, e, g, require) refl

  holder :
      (scope : Scope)
      → Holds auth header scope
      → require auth header needed
        ≡ (if satisfies scope needed then ok tt else err (scope_required needed))
  unfolding require
  holder scope (token, e, g) =
      let b = ap bearer e ∙ bearer-append token in rw (on, b, g, require) refl

  -- A result other than the two of a stranger comes from a scope.
  from_scope :
      (result : Result Status (Unit {0}))
      → result ≢ err missing_bearer_token
      → result ≢ err unknown_token
      → require auth header needed ≡ result
      → (scope : Scope) × Holds auth header scope
  from_scope result m u h = elim (Option-cases (bearer header)) [
    | inl e ↦ absurd (m (sym h ∙ no_token e))
    | inr (token, e) ↦ elim (Option-cases (get auth.tokens token)) [
      | inl g ↦ absurd (u (sym h ∙ stranger token e g))
      | inr (scope, g) ↦ (scope, (token, bearer_header header token e, g))
    ]
  ]

-- Operators may do everything, and everyone who is known may read.
abbrev pub Allows : Scope → Scope → Type 0
Allows scope needed = (scope ≡ operator) ⊎ (needed ≡ read)

-- A reader asks for what only an operator may do.
abbrev pub Denies : Scope → Scope → Type 0
Denies scope needed = (scope ≡ read) × (needed ≡ operator)

allowed : (scope needed : Scope) → (satisfies scope needed ≡ true) ↔ Allows scope needed
unfolding satisfies
allowed read read = (λ h. inr refl, λ h. refl)
allowed read operator = (λ h. cc h, λ h. elim h [ inl e ↦ cc e | inr e ↦ cc e ])
allowed operator read = (λ h. inl refl, λ h. refl)
allowed operator operator = (λ h. inl refl, λ h. refl)

denied : (scope needed : Scope) → (satisfies scope needed ≡ false) ↔ Denies scope needed
unfolding satisfies
denied read read = (λ h. cc h, λ h. cc (h.1))
denied read operator = (λ h. (refl, refl), λ h. refl)
denied operator read = (λ h. cc h, λ h. cc (h.0))
denied operator operator = (λ h. cc h, λ h. cc (h.0))

-- With authorization on, a request passes exactly when its bearer token is known and is an operator's,
-- or is known and only reading is asked for; it is refused as lacking the scope exactly when the token
-- is known and a reader's, and an operator's scope is asked for.
pub require_iff :
    (auth : Auth) (header : Option String) (needed : Scope)
    → auth.enabled ≡ true
    → ((require auth header needed ≡ ok tt)
        ↔ ((scope : Scope) × Holds auth header scope × Allows scope needed))
      × ((require auth header needed ≡ err (scope_required needed))
          ↔ ((scope : Scope) × Holds auth header scope × Denies scope needed))
require_iff auth header needed on = (
  (
    λ h.
        let (scope, held) = from_scope auth header needed on (ok tt) (λ e. cc e) (λ e. cc e) h in
        (
          scope,
          held,
          elim (Bool-cases (satisfies scope needed)) [
            | inl s ↦ (allowed scope needed).0 s
            | inr s ↦
                absurd (ok_is_not-err (sym h ∙ holder auth header needed on scope held ∙ choice s))
          ],
        ),
    λ (scope, held, s).
        holder auth header needed on scope held ∙ choice ((allowed scope needed).1 s),
  ),
  (
    λ h.
        let (scope, held) =
          from_scope auth header needed on (err (scope_required needed)) (λ e. cc e) (λ e. cc e)
            h in
        (
          scope,
          held,
          elim (Bool-cases (satisfies scope needed)) [
            | inl s ↦
                absurd
                  (ok_is_not-err (sym (holder auth header needed on scope held ∙ choice s) ∙ h))
            | inr s ↦ (denied scope needed).0 s
          ],
        ),
    λ (scope, held, s).
        holder auth header needed on scope held ∙ choice ((denied scope needed).1 s),
  ),
)
  where
    choice :
        {b c : Bool}
        → b ≡ c
        → (if b then ok tt else err (scope_required needed))
          ≡ (if c then ok tt else err (scope_required needed))
    choice e = ap (λ b. if b then ok tt else err (scope_required needed)) e

-- Where a token file is configured, loading either fails or turns authorization on with at least one
-- token: no content of the file leaves the coordinator open.
pub configured_is_enabled :
    (lines : List (List String)) (auth : Auth)
    → from_env (some lines) ≡ ok auth
    → (auth.enabled ≡ true) × (auth.tokens ≢ [])
unfolding from_env
configured_is_enabled lines auth h = ground arith
