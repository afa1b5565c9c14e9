-- ===== src/Auth/Groups.antt =====
-- celery_root/components/web/auth.py: the check of the groups of a GitLab account, page by page.
use celery_cnc.Base.{ℕ, zero, suc, String, Bool, true, false, Option, none, some, List, [], ◌∷◌}
use celery_cnc.Base.{◌<>◌, ◌==◌, string_eq, contains, if◌then◌else◌, is_empty}
use celery_cnc.Base.Dict.{Dict, lookup}
use celery_cnc.Base.Python.{strip_back, is_slash}
use celery_cnc.Value.{Value, integer, list, Items, nil, cons, Fields, get, truthy, Integer, pos}
use celery_cnc.Auth.Attempt.{Attempt, returned, ◌>>=◌}
use celery_cnc.Auth.Provider.{Http, text_of, fields_of, http_get_json_with_headers, bearer}
use celery_cnc.Auth.{AuthConfig, text_or}

-- `groups.add(…)`; the set is a list without repetitions.
unfoldable pub add_group : String → List String → List String
add_group g groups = if contains groups g then groups else g ∷ groups

abbrev pub add_named : Http → Value → List String → List String
add_named http v groups = if truthy v then add_group (text_of http v) groups else groups

abbrev pub add_item : Http → Fields → List String → List String
add_item http item groups =
    add_named http (get "path" item) (add_named http (get "full_path" item) groups)

unfoldable pub add_items : Http → Items → List String → Attempt (List String)
unfolding add_group get truthy
add_items http nil groups = returned groups
add_items http (cons v items) groups = do
  item ← fields_of v
  add_items http items (add_item http item groups)

unfoldable pub add_page : Http → Value → List String → Attempt (List String)
unfolding add_items
add_page http (list items) groups = add_items http items groups
add_page http v groups = returned groups

-- The address of one page of groups.
unfoldable pub groups_url : Http → AuthConfig → Integer → String
unfolding strip_back
groups_url http config page =
    strip_back is_slash config.gitlab_oauth_domain
    <> ("/api/v4/groups?"
        <> http.urlencode (
            ("min_access_level", integer config.gitlab_min_access_level)
            ∷ ("per_page", integer (pos 100))
            ∷ ("page", integer page)
            ∷ []))

-- The page after one, from the header X-Next-Page; `none` ends the loop.
unfoldable pub next_page : Http → Dict String String → Option Integer
next_page http headers =
    let next = text_or (lookup "X-Next-Page" headers) "" in
    if next == "" then none else http.int next

-- The loop over the pages, with fuel; what no fuel is left for comes back as `none`.
abbrev pub Pages : Type 0
Pages = Attempt (Option (List String))

abbrev pub onward : (Integer → List String → Pages) → List String → Option Integer → Pages
onward loop more none = returned (some more)
onward loop more (some next) = loop next more

unfoldable pub groups_from : Http → String → AuthConfig → ℕ → Integer → List String → Pages
unfolding http_get_json_with_headers add_page next_page groups_url
groups_from http token config zero page groups = returned none
groups_from http token config (suc fuel) page groups = do
  got ← http_get_json_with_headers http (groups_url http config page) (bearer token)
  more ← add_page http got.0 groups
  onward (groups_from http token config fuel) more (next_page http got.1)

unfoldable pub fetch_gitlab_groups : Http → String → AuthConfig → ℕ → Pages
unfolding groups_from
fetch_gitlab_groups http token config fuel = groups_from http token config fuel (pos 1) []

-- `any(group in groups for group in allowed)`
unfoldable pub any_in : List String → List String → Bool
any_in [] groups = false
any_in (g ∷ allowed) groups = if contains groups g then true else any_in allowed groups

abbrev pub judged : AuthConfig → Option (List String) → Option Bool
judged config none = none
judged config (some groups) =
    some (if is_empty groups then false else any_in config.gitlab_allowed_groups groups)

-- `none` where the fuel ran out.
unfoldable pub is_gitlab_group_allowed : Http → String → AuthConfig → ℕ → Attempt (Option Bool)
unfolding fetch_gitlab_groups any_in
is_gitlab_group_allowed http token config fuel =
    fetch_gitlab_groups http token config fuel >>= λ groups. returned (judged config groups)
