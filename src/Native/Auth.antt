-- ===== src/Native/Auth.antt =====
-- injectOauthToken of native/backend.go, on the environment of a process that is to be spawned.
use claude_cowork_service.Base.{
  All, Bool, Bool-cases, Bytes, Dict, List, Option, Option-cases, [], arith, codes, eqb, eqb_refl,
  false, get, get-put, if◌then◌else◌, inl, inr, is_empty, none, put, refl, some, true, ◌++◌, ◌∷◌,
  ◌≡◌, ◌⊎◌,
}

abbrev pub token_key : Bytes
token_key = codes "CLAUDE_CODE_OAUTH_TOKEN"

abbrev pub auth_key : Bytes
auth_key = codes "ANTHROPIC_AUTH_TOKEN"

abbrev pub third_party_keys : List Bytes
third_party_keys =
    codes "ANTHROPIC_API_KEY"
    ∷ codes "ANTHROPIC_BEDROCK_BASE_URL"
    ∷ codes "ANTHROPIC_VERTEX_BASE_URL"
    ∷ codes "ANTHROPIC_FOUNDRY_BASE_URL"
    ∷ []

-- _, ok := env[k].
unfoldable pub is_set : Dict Bytes → Bytes → Bool
unfolding get
is_set env k = elim (get k env) [ none ↦ false | some v ↦ true ]

-- The first of the keys that the environment sets.
unfoldable pub first_set : Dict Bytes → List Bytes → Option Bytes
unfolding is_set
first_set env [] = none
first_set env (k ∷ ks) = let rest = first_set env ks in if is_set env k then some k else rest

-- Whether the token was injected, and why it was not.
pub data Injection : Type 0 where
  injected : Injection
  skipped : Bytes → Injection

-- injectOauthToken.
unfoldable pub inject_oauth_token : Dict Bytes → Bytes → Dict Bytes × Injection
unfolding is_empty is_set first_set put
inject_oauth_token env token =
    if is_empty token
    then (env, skipped [])
    else if is_set env token_key
    then (env, skipped (codes "CLAUDE_CODE_OAUTH_TOKEN already set"))
    else if is_set env auth_key
    then (env, skipped (codes "ANTHROPIC_AUTH_TOKEN already set"))
    else elim (first_set env third_party_keys) [
      | some k ↦ (env, skipped (codes "third-party auth present (" ++ k ++ codes ")"))
      | none ↦ (put token_key token env, injected)
    ]

first_set-none :
    (env : Dict Bytes) (ks : List Bytes)
    → first_set env ks ≡ none
    → All (λ k. is_set env k ≡ false) ks
unfolding first_set
first_set-none env [] h = tt
first_set-none env (k ∷ ks) h = (ground arith, first_set-none env ks (ground arith))

-- A variable other than the token's, after the token was put.
others_kept :
    (env : Dict Bytes) (token k : Bytes)
    → eqb token_key k ≡ false
    → get k (put token_key token env) ≡ get k env
others_kept env token k other = ground (arith, other, get-put token_key k token env)

token_put :
    (env : Dict Bytes) (token : Bytes) → get token_key (put token_key token env) ≡ some token
token_put env token = ground (arith, eqb_refl token_key, get-put token_key token_key token env)

-- The keys of an own credential or of another provider.
abbrev pub credential_keys : List Bytes
credential_keys = token_key ∷ auth_key ∷ third_party_keys

-- Either the environment stays as it is, or the token, which is not empty, is put under its key, no
-- key of a credential or of another provider having been set; every other variable keeps its value.
pub inject_oauth_token_lem :
    (env : Dict Bytes) (token : Bytes)
    → let r = inject_oauth_token env token in
      (((why : Bytes) × (r.1 ≡ skipped why)) × (r.0 ≡ env))
      ⊎ ((r.1 ≡ injected)
          × (is_empty token ≡ false)
          × All (λ k. is_set env k ≡ false) credential_keys
          × (get token_key r.0 ≡ some token)
          × ((k : Bytes) → eqb token_key k ≡ false → get k r.0 ≡ get k env))
unfolding inject_oauth_token
inject_oauth_token_lem env token = elim (Bool-cases (is_empty token)) [
  | inl a ↦ rw a (inl (([], refl), refl))
  | inr a ↦ elim (Bool-cases (is_set env token_key)) [
    | inl b ↦ rw (a, b) (inl ((codes "CLAUDE_CODE_OAUTH_TOKEN already set", refl), refl))
    | inr b ↦ elim (Bool-cases (is_set env auth_key)) [
      | inl c ↦ rw (a, b, c) (inl ((codes "ANTHROPIC_AUTH_TOKEN already set", refl), refl))
      | inr c ↦ elim (Option-cases (first_set env third_party_keys)) [
        | inl d ↦
            rw (a, b, c, d)
              (inr (
                refl,
                refl,
                (refl, (refl, first_set-none env third_party_keys d)),
                token_put env token,
                others_kept env token,
              ))
        | inr (k, d) ↦
            rw (a, b, c, d)
              (inl ((codes "third-party auth present (" ++ k ++ codes ")", refl), refl))
      ]
    ]
  ]
]
