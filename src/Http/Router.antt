-- ===== src/Http/Router.antt =====
-- `route` of internal/adapter/httpapi/router.go.
use fx_quotes.Prelude.{◌||◌, [], Option, none, some, if◌then◌else◌}
use fx_quotes.Text.{Text, codes, text_eq, contains, strip_prefix}

abbrev pub post : Text
post = codes "POST"

abbrev pub get : Text
get = codes "GET"

abbrev pub updates_path : Text
updates_path = codes "/v1/quote-updates"

-- `"/v1/quote-updates/"`, before an id.
abbrev pub update_prefix : Text
update_prefix = codes "/v1/quote-updates/"

abbrev pub update_pattern : Text
update_pattern = codes "/v1/quote-updates/{id}"

abbrev pub latest_path : Text
latest_path = codes "/v1/quotes/latest"

abbrev pub live_path : Text
live_path = codes "/health/live"

abbrev pub ready_path : Text
ready_path = codes "/health/ready"

abbrev pub openapi_path : Text
openapi_path = codes "/openapi.yaml"

abbrev pub unmatched : Text
unmatched = codes "unmatched"

abbrev pub id_route : Option Text → Text × Text
id_route none = (unmatched, [])
id_route (some id) = if contains b'/' id then (unmatched, []) else (update_pattern, get)

-- The pattern and the method; the empty method where no route matches.
unfoldable pub route : Text → Text × Text
route path =
    if text_eq path updates_path
    then (path, post)
    else if text_eq path latest_path
        || text_eq path live_path
        || text_eq path ready_path
        || text_eq path openapi_path
    then (path, get)
    else id_route (strip_prefix update_prefix path)
