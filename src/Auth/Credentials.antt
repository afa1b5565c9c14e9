-- ===== src/Auth/Credentials.antt =====
-- celery_root/components/web/auth.py: the comparison of a request's credential with the configured ones.
use celery_cnc.Base.{String, Bool, true, false, Option, none, some, List, [], ◌∷◌}
use celery_cnc.Base.{◌≡◌, ◌≢◌, ◌⊎◌, inl, inr, refl, arith}
use celery_cnc.Base.{string_eq}
use celery_cnc.Auth.Gate.{compare_digest, either_or, matches_any}
use celery_cnc.Auth.{BasicCredential}

-- The name and the password are those of a configured credential.
abbrev pub Held : String → String → List BasicCredential → Type 0
Held username password [] = ⊥
Held username password (cred ∷ creds) =
    ((username ≡ cred.username) × (password ≡ cred.password)) ⊎ Held username password creds

digest-eq : (a b : String) → compare_digest a b ≡ some true → a ≡ b
unfolding compare_digest
digest-eq a b h = ground arith

digest_self : (a b : String) → a ≡ b → compare_digest a b ≢ none → compare_digest a b ≡ some true
unfolding compare_digest
digest_self a b e h = ground arith

either_or-true :
    (a b rest : Option Bool)
    → either_or a b rest ≡ some true
    → ((a ≡ some true) × (b ≡ some true)) ⊎ (rest ≡ some true)
either_or-true none b rest h = cc
either_or-true (some false) b rest h = inr h
either_or-true (some true) none rest h = cc
either_or-true (some true) (some false) rest h = inr h
either_or-true (some true) (some true) rest h = inl (refl, refl)

pub matches_any-Held :
    (username password : String) (creds : List BasicCredential)
    → matches_any username password creds ≡ some true
    → Held username password creds
unfolding matches_any
matches_any-Held username password [] h = absurd (cc)
matches_any-Held username password (cred ∷ creds) h =
    elim (either_or-true (compare_digest username cred.username)
      (compare_digest password cred.password) (matches_any username password creds) h) [
        | inl (a, b) ↦ inl (digest-eq _ _ a, digest-eq _ _ b)
        | inr r ↦ inr (matches_any-Held username password creds r)
      ]

-- The comparisons of one credential that is the right one, where none raises.
either_or_held :
    (a b rest : Option Bool)
    → (a ≢ none → a ≡ some true)
    → (b ≢ none → b ≡ some true)
    → either_or a b rest ≢ none
    → either_or a b rest ≡ some true
either_or_held none b rest f g h = absurd (h refl)
either_or_held (some false) b rest f g h = absurd (cc (f (λ e. cc)))
either_or_held (some true) none rest f g h = absurd (h refl)
either_or_held (some true) (some false) rest f g h = absurd (cc (g (λ e. cc)))
either_or_held (some true) (some true) rest f g h = refl

either_or_rest :
    (a b rest : Option Bool)
    → (rest ≢ none → rest ≡ some true)
    → either_or a b rest ≢ none
    → either_or a b rest ≡ some true
either_or_rest none b rest f h = absurd (h refl)
either_or_rest (some false) b rest f h = f h
either_or_rest (some true) none rest f h = absurd (h refl)
either_or_rest (some true) (some false) rest f h = f h
either_or_rest (some true) (some true) rest f h = refl

pub Held-matches_any :
    (username password : String) (creds : List BasicCredential)
    → Held username password creds
    → matches_any username password creds ≢ none
    → matches_any username password creds ≡ some true
unfolding matches_any
Held-matches_any username password [] held h = absurd held
Held-matches_any username password (cred ∷ creds) (inl (e, f)) h =
    either_or_held (compare_digest username cred.username) (compare_digest password cred.password)
      (matches_any username password creds) (digest_self username cred.username e)
      (digest_self password cred.password f) h
Held-matches_any username password (cred ∷ creds) (inr held) h =
    either_or_rest (compare_digest username cred.username) (compare_digest password cred.password)
      (matches_any username password creds) (Held-matches_any username password creds held) h
