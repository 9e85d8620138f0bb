-- ===== src/Tests/Secrets.antt =====
-- An environment with a password in it, and the theorem on what its scan marks applied to it.
use kumomiru.Prelude.{String, ◌≡◌, refl, true, [], ◌∷◌, map, any, keep_if}
use kumomiru.JsSet.{Distinct, has}
use kumomiru.Graph.Schema.{Json, Attributes}
use kumomiru.Adapters.Sanitize.{scan_record}
use kumomiru.Adapters.Sanitize.Record.{is_secret, has_secret, scan_record-Exact}

abbrev environment : Attributes
environment =
    ("LOG_LEVEL", Json.str "debug-and-more")
    ∷ ("DB_PASSWORD", Json.str "hunter2supersecret")
    ∷ ("CI", Json.bool true)
    ∷ []

scan_record-Exact_example :
    ((scan_record environment).keys ≡ map (λ e. e.0) (keep_if is_secret environment))
    × (((x : String) → has x (scan_record environment).kinds ≡ any (has_secret x) environment)
        × (Distinct (scan_record environment).kinds
            × ((scan_record environment).found ≡ any is_secret environment)))
scan_record-Exact_example = scan_record-Exact environment

password_marked : (scan_record environment).keys ≡ "DB_PASSWORD" ∷ []
unfolding scan_record
password_marked = refl

password_kind : (scan_record environment).kinds ≡ "generic-secret-assignment" ∷ []
unfolding scan_record
password_kind = refl
