-- ===== src/Auth/Listed.antt =====
-- celery_root/components/web/auth.py: the check of the groups against what the provider lists.
use celery_cnc.Base.{
  ℕ, zero, suc, String, Bool, true, false, ◌&&◌, ◌||◌, Option, none, some, List, [], ◌∷◌, ◌≤◌, ◌↔◌,
}
use celery_cnc.Base.{
  ◌≡◌, ◌≢◌, refl, sym, ap, ◌∙◌, ◌==◌, string_eq, contains, if◌then◌else◌, is_empty, arith,
  Bool-cases, ==_cases, ==_refl, inl, inr,
}
use celery_cnc.Base.Dict.{Dict, lookup}
use celery_cnc.Value.{Value, mapping, list, Items, nil, cons, Fields, get, truthy, Integer, pos}
use celery_cnc.Auth.Attempt.{returned, ◌>>=◌}
use celery_cnc.Auth.Provider.{Http, text_of, http_get_json_with_headers, bearer}
use celery_cnc.Auth.Groups.{
  add_group, add_named, add_item, add_items, add_page, groups_url, next_page, onward, groups_from,
  fetch_gitlab_groups, any_in, judged, is_gitlab_group_allowed,
}
use celery_cnc.Auth.{AuthConfig}

-- The names of a page's groups: the full path and the path of each, where there is one.
abbrev pub is_name : Http → Value → String → Bool
is_name http v g = truthy v && (g == text_of http v)

abbrev pub item_has : Http → Value → String → Bool
item_has http (mapping item) g =
    is_name http (get "full_path" item) g || is_name http (get "path" item) g
item_has http v g = false

abbrev pub page_has : Http → Items → String → Bool
page_has http nil g = false
page_has http (cons v items) g = item_has http v g || page_has http items g

abbrev pub pages_have : Http → List Items → String → Bool
pages_have http [] g = false
pages_have http (items ∷ rest) g = page_has http items g || pages_have http rest g

-- A page lists objects.
pub data AreObjects : Items → Type 0 where
  no_items : AreObjects nil
  one_more :
      {item : Fields} {items : Items} → AreObjects items → AreObjects (cons (mapping item) items)

-- What the headers of an answer say of the page that follows.
pub data Follows (http : Http) (headers : Dict String String) : Option Integer → Type 0 where
  absent : lookup "X-Next-Page" headers ≡ none → Follows http headers none
  empty : lookup "X-Next-Page" headers ≡ some "" → Follows http headers none
  numbered :
      {next : Integer} (t : String)
      → lookup "X-Next-Page" headers ≡ some t
      → t ≢ ""
      → http.int t ≡ some next
      → Follows http headers (some next)

-- The pages that the provider answers with from one page on, as the headers link them.
pub data Listing (http : Http) (token : String) (config : AuthConfig)
    : Integer → List Items → Type 0 where
  last_page :
      {page : Integer} {items : Items} {headers : Dict String String}
      → http_get_json_with_headers http (groups_url http config page) (bearer token)
        ≡ returned (list items, headers)
      → AreObjects items
      → Follows http headers none
      → Listing http token config page (items ∷ [])
  page_then :
      {page next : Integer} {items : Items} {headers : Dict String String} {rest : List Items}
      → http_get_json_with_headers http (groups_url http config page) (bearer token)
        ≡ returned (list items, headers)
      → AreObjects items
      → Follows http headers (some next)
      → Listing http token config next rest
      → Listing http token config page (items ∷ rest)

abbrev pub page_count : List Items → ℕ
page_count [] = 0
page_count (items ∷ rest) = suc (page_count rest)

Follows-next_page :
    (http : Http) (headers : Dict String String) {o : Option Integer}
    → Follows http headers o
    → next_page http headers ≡ o
unfolding next_page string_eq
Follows-next_page http headers (absent e) = rw e refl
Follows-next_page http headers (empty e) = rw e refl
Follows-next_page http headers (numbered t e n i) = rw e (ground (arith, i, n))

contains-add_group :
    (h g : String) (groups : List String)
    → contains (add_group h groups) g ≡ (g == h || contains groups g)
unfolding add_group
contains-add_group h g groups = elim (Bool-cases (contains groups h)) [
  | inl t ↦ elim (==_cases g h) [
    | inl (p, u) ↦ rw (t, u) (ap (contains groups) p ∙ t)
    | inr (n, u) ↦ rw (t, u)
  ]
  | inr t ↦ rw t
]

contains-add_named :
    (http : Http) (v : Value) (g : String) (groups : List String)
    → contains (add_named http v groups) g ≡ (is_name http v g || contains groups g)
contains-add_named http v g groups = elim (Bool-cases (truthy v)) [
  | inl t ↦ rw t (contains-add_group (text_of http v) g groups)
  | inr t ↦ rw t
]

contains-add_item :
    (http : Http) (item : Fields) (g : String) (groups : List String)
    → contains (add_item http item groups) g ≡ (item_has http (mapping item) g || contains groups g)
contains-add_item http item g groups = rw (contains-add_named, contains-add_named) (ground arith)

add_items-objects :
    (http : Http) {items : Items} (groups : List String)
    → AreObjects items
    → (more : List String) × (add_items http items groups ≡ returned more)
      × ((g : String) → contains more g ≡ (contains groups g || page_has http items g))
unfolding add_items
add_items-objects http groups no_items = (groups, refl, λ g. ground arith)
add_items-objects http groups (one_more {item} {items} objects) =
    let (more, e, has) = add_items-objects http (add_item http item groups) objects in
    (more, e, λ g. has g ∙ rw (contains-add_item http item g groups) (ground arith))

module _ (http : Http) (token : String) (config : AuthConfig) where
  one_page :
      (fuel : ℕ) (page : Integer) (groups more : List String) (payload : Value)
      (headers : Dict String String) (next : Option Integer)
      → http_get_json_with_headers http (groups_url http config page) (bearer token)
        ≡ returned (payload, headers)
      → add_page http payload groups ≡ returned more
      → next_page http headers ≡ next
      → groups_from http token config (suc fuel) page groups
        ≡ onward (groups_from http token config fuel) more next
  unfolding groups_from
  one_page fuel page groups more payload headers next got added e =
      ap
        (λ r. r >>= λ got. add_page http got.0 groups >>= λ more.
          onward (groups_from http token config fuel) more (next_page http got.1))
        got
      ∙ ap
          (λ r.
            r >>= λ more. onward (groups_from http token config fuel) more (next_page http headers))
          added
      ∙ ap (onward (groups_from http token config fuel) more) e

  -- As many rounds as there are pages are enough, and find what the pages name.
  groups_from-Listing :
      {page : Integer} {pages : List Items} (fuel : ℕ) (groups : List String)
      → Listing http token config page pages
      → page_count pages ≤ fuel
      → (all : List String) × (groups_from http token config fuel page groups ≡ returned (some all))
        × ((g : String) → contains all g ≡ (contains groups g || pages_have http pages g))
  unfolding add_page
  groups_from-Listing zero groups (last_page got objects end) h = absurd (omega arith)
  groups_from-Listing zero groups (page_then got objects on rest) h = absurd (omega arith)
  groups_from-Listing (suc fuel) groups (last_page {page} {items} {headers} got objects end) h =
      let (more, e, has) = add_items-objects http groups objects in
      (
        more,
        one_page fuel page groups more (list items) headers none got e
            (Follows-next_page http headers end),
        λ g. has g ∙ ground arith,
      )
  groups_from-Listing (suc fuel) groups
        (page_then {page} {next} {items} {headers} {rest} got objects on later) h =
      let (more, e, has) = add_items-objects http groups objects in
      let (all, e', has') = groups_from-Listing fuel more later (omega arith) in
      (
        all,
        one_page fuel page groups more (list items) headers (some next) got e
              (Follows-next_page http headers on)
            ∙ e',
        λ g. has' g ∙ rw (has g) (ground arith),
      )

  any_in-some :
      (allowed all : List String)
      → any_in allowed all ≡ true
      → (g : String) × (contains allowed g ≡ true) × (contains all g ≡ true)
  unfolding any_in
  any_in-some [] all h = absurd (cc)
  any_in-some (g ∷ allowed) all h = elim (Bool-cases (contains all g)) [
    | inl t ↦ (g, ground (arith, ==_refl g), t)
    | inr t ↦
        let (k, a, b) = any_in-some allowed all (let q = rw t at h in q) in (k, ground arith, b)
  ]

  any_in-contains :
      (allowed all : List String) (g : String)
      → contains allowed g ≡ true
      → contains all g ≡ true
      → any_in allowed all ≡ true
  unfolding any_in
  any_in-contains [] all g a b = cc
  any_in-contains (k ∷ allowed) all g a b = elim (==_cases g k) [
    | inl (p, t) ↦ rw (sym (ap (contains all) p) ∙ b)
    | inr (n, t) ↦
        let rest = any_in-contains allowed all g (let q = rw t at a in q) b in ground arith
  ]

  not_empty :
      (all : List String) (g : String) (b : Bool)
      → contains all g ≡ true
      → b ≡ true
      → (if is_empty all then false else b) ≡ true
  not_empty [] g b found any = cc
  not_empty (x ∷ all) g b found any = any

  -- Where the provider answers for an account with pages of objects, linked by the headers, and there
  -- are at most as many as the rounds that are allowed: the check ends with an answer, and this is yes
  -- exactly when one of the allowed groups is the path or the full path of an object on one of them.
  pub is_gitlab_group_allowed-Listing :
      {pages : List Items} (fuel : ℕ)
      → Listing http token config (pos 1) pages
      → page_count pages ≤ fuel
      → (answer : Bool) × (is_gitlab_group_allowed http token config fuel ≡ returned (some answer))
        × ((answer ≡ true) ↔ (
            (g : String) × (contains config.gitlab_allowed_groups g ≡ true)
            × (pages_have http pages g ≡ true)))
  unfolding is_gitlab_group_allowed fetch_gitlab_groups
  is_gitlab_group_allowed-Listing {pages} fuel listing h =
      let (all, e, has) = groups_from-Listing fuel [] listing h in
      let answer : Bool = if is_empty all then false else any_in config.gitlab_allowed_groups all in
      (
        answer,
        ap (λ r. r >>= λ groups. returned (judged config groups)) e,
        (
          λ yes.
              let (g, a, b) = any_in-some config.gitlab_allowed_groups all (ground arith) in
              (g, a, sym (has g) ∙ b),
          λ (g, a, b).
              let found : contains all g ≡ true = has g ∙ b in
              let any = any_in-contains config.gitlab_allowed_groups all g a found in
              not_empty all g _ found any,
        ),
      )
