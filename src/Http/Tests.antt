-- ===== src/Http/Tests.antt =====
-- A server that fails once, and a URL.
use Prim.Native.String
use first_principles.Base.{◌≡◌, refl, String, ℕ, zero, suc, none, some, [], ◌∷◌, arith}
use first_principles.Base.Texts.{size, slice_to}
use first_principles.Http.Path.{slash_at, trim_end, strip_trailing_slashes, join_url}
use first_principles.Http.Path.Joined.{Stripped, Follows, join_url-Stripped}
use first_principles.Http.Retry.{
  http, ApiResult, ok, err, ResolvedRetryConfig, unset, resolve_retry_config, default_retry_on,
  compute_backoff_ms, retry_loop, execute_with_retry,
}
use first_principles.Http.Retry.Bounds.{IsRun, execute_with_retry-IsRun}

abbrev server : ℕ → ApiResult ℕ
server zero = err (record { kind = http; status = some 503 })
server (suc n) = ok 7

abbrev all_of : ℕ → ℕ → ℕ
all_of i cap = cap

abbrev config : ResolvedRetryConfig
config = resolve_retry_config unset none

execute_with_retry_runs :
    execute_with_retry server all_of config ≡ record { result = ok 7; made = 2; waits = 200 ∷ [] }
unfolding execute_with_retry retry_loop compute_backoff_ms default_retry_on resolve_retry_config
execute_with_retry_runs = refl

execute_with_retry-IsRun_example :
    IsRun server all_of config 0 config.attempts (execute_with_retry server all_of config)
unfolding resolve_retry_config
execute_with_retry-IsRun_example = execute_with_retry-IsRun server all_of config (omega arith)

join_url_runs : join_url "https://api.test//" "users" ≡ "https://api.test/users"
unfolding join_url strip_trailing_slashes trim_end slash_at size slice_to
join_url_runs = refl

join_url-Stripped_example :
    (core : String) × Stripped "https://api.test//" core
    × ((tail : String) × Follows "users" tail
        × (join_url "https://api.test//" "users" ≡ String.◌++◌ core tail))
join_url-Stripped_example = join_url-Stripped "https://api.test//" "users"
