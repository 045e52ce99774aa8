-- ===== src/Examples/Rpc.antt =====
-- A primary endpoint that is down and a fallback that answers; declared schedules of six hours.
use steakout.Prelude.{
  ℕ, suc, ◌+◌, ◌*◌, ◌^◌, ◌≤◌, ◌<◌, ◌≡◌, refl, max, Text, text, text_eq, Bool, true, false, Option,
  none, some, List, [], ◌∷◌, ◌==◌, if◌then◌else◌, arith,
}
use steakout.Prelude.Js.{int}
use steakout.Json.{Value, number, object, field, end}
use steakout.Rpc.{unavailable}
use steakout.Rpc.Request.{
  RpcError, good, bad, aborted, response, default_config, request_once, backoff_delay_ms,
}
use steakout.Rpc.Request.Laws.{failure-judged, backoff_bounds}
use steakout.Rpc.Client.{
  Net, RpcClient, no_counts, is_failover_eligible, request_rpc_data, resolve_rpc_endpoints,
}
use steakout.Rpc.Client.Balance.{IsBalanced, request-IsBalanced}
use steakout.Rpc.Client.Bounds.{IsCounted, request-sent}
use steakout.Rpc.Client.Sticky.{IsFirst, answered-IsFirst}
use steakout.Schedule.{normalize_schedule_hours, whole_hours}
use steakout.Schedule.Laws.{every_text, cron_text, read-written}
use steakout.Schedule.Usable.{normal_hours-normalize}
use steakout.Adherence.{normal_hours}

abbrev payload : Value
payload = object (field (text "result") (object (field (text "data") (number (int 7)) end)) end)

-- The network counts its requests.
abbrev net : Net ℕ
net = record {
  config = record default_config { max_attempts = 2 };
  post = λ url method params n.
      (if text_eq url (text "p") then aborted else response 200 (some payload), suc n);
  sleep = λ delay n. n;
  random = λ n. (0, n);
  now = λ n. n;
  latency = λ before after. 1;
}

abbrev fresh : RpcClient
fresh = record {
  total = no_counts;
  by_method = [];
  last_call_at = none;
  last_error_at = none;
  last_error_message = none;
  sticky = none;
  last_success_at = none;
}

counted : IsCounted net (λ n. n)
counted = record {
  posts = λ url method params n. omega arith;
  sleeps = λ delay n. omega arith;
  draws = λ n. omega arith;
}

request-sent_example :
    (request_rpc_data net (text "m") [] (some (text "p")) (some (text "f")) none fresh 0).2
    ≤ 2 * max 1 2 + 0
request-sent_example =
    request-sent net (text "m") [] (λ n. n) counted (some (text "p")) (some (text "f")) none fresh 0

balanced : IsBalanced 0 fresh
unfolding IsBalanced
balanced = refl

request-IsBalanced_example :
    IsBalanced 0
      (request_rpc_data net (text "m") [] (some (text "p")) (some (text "f")) none fresh 0).1
request-IsBalanced_example =
    request-IsBalanced net (text "m") [] (some (text "p")) (some (text "f")) none fresh 0 balanced

answered :
    (request_rpc_data net (text "m") [] (some (text "p")) (some (text "f")) none fresh 0).0
    ≡ good (number (int 7))
unfolding request_rpc_data steakout.Prelude.trim text_eq steakout.Json.get_field
answered = refl

answered-IsFirst_example :
    IsFirst net
      (text "m")
      []
      (number (int 7))
      (request_rpc_data net (text "m") [] (some (text "p")) (some (text "f")) none fresh 0).1
      (request_rpc_data net (text "m") [] (some (text "p")) (some (text "f")) none fresh 0).2
      (resolve_rpc_endpoints (some (text "p")) (some (text "f")) none)
answered-IsFirst_example =
    answered-IsFirst net (text "m") [] (some (text "p")) (some (text "f")) fresh 0 (number (int 7))
      answered

abbrev refused : RpcError
refused = record {
  code = unavailable;
  retriable = false;
  http_status = some 404;
  message = text "RPC HTTP status 404";
}

not_found : request_once (text "m") default_config (response 404 none) ≡ bad refused
unfolding request_once steakout.Prelude.digits
not_found = refl

failure-judged_example : (refused.retriable ≡ false) × (is_failover_eligible refused ≡ true)
failure-judged_example =
    failure-judged (text "m") default_config (response 404 none) refused not_found

backoff_bounds_example :
    (2000 ≤ backoff_delay_ms default_config 5 3) × (backoff_delay_ms default_config 5 3 ≤ 6 * 60000)
backoff_bounds_example = backoff_bounds 5 3 (omega arith)

read-written_example :
    (normalize_schedule_hours (some (every_text 6)) ≡ some (whole_hours 6))
    × (normalize_schedule_hours (some (cron_text 6)) ≡ some (whole_hours 6))
read-written_example = read-written 6 (omega arith) (omega arith)

normal_hours-normalize_example :
    normal_hours (normalize_schedule_hours (some (text "Every 1.5 Hours!")))
    ≡ normalize_schedule_hours (some (text "Every 1.5 Hours!"))
normal_hours-normalize_example = normal_hours-normalize (some (text "Every 1.5 Hours!"))

decimal_hours :
    normalize_schedule_hours (some (text "Every 1.5 Hours!"))
    ≡ some (record { digits = 15; scale = 1 })
unfolding normalize_schedule_hours text_eq steakout.Prelude.trim steakout.Rpc.to_lower
    steakout.Prelude.split_on
decimal_hours = refl

hyphen_words : normalize_schedule_hours (some (text " Twice-Daily. ")) ≡ some (whole_hours 12)
unfolding normalize_schedule_hours text_eq steakout.Prelude.trim steakout.Rpc.to_lower
hyphen_words = refl

negative_hours : normalize_schedule_hours (some (text "every -3 hours")) ≡ none
unfolding normalize_schedule_hours text_eq steakout.Prelude.trim steakout.Rpc.to_lower
    steakout.Prelude.split_on
negative_hours = refl

minute_cron : normalize_schedule_hours (some (text "*/5 * * * *")) ≡ none
unfolding normalize_schedule_hours text_eq steakout.Prelude.trim steakout.Rpc.to_lower
    steakout.Prelude.split_on
minute_cron = refl
