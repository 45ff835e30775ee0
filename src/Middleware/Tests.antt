-- ===== src/Middleware/Tests.antt =====
-- Requests from origins that a setting with two origins lists, and does not list.
use chatter_stack.Base.{ℕ, String, cat, ◌≡◌, refl, true, false, none, some, trim_space, is_space}
use chatter_stack.Middleware.{cors, parse_allowed_origins}
use chatter_stack.Middleware.Origins.{cors_answers, names}
use chatter_stack.Middleware.Unused.{logger, json}

middleware_code : Unit {0}
unfolding cors parse_allowed_origins trim_space is_space
middleware_code = tt

cors_answers_at_work :
    cors (parse_allowed_origins "https://a, https://b ,") "https://b" "GET"
    ≡ (some "https://b", true)
unfolding middleware_code names
cors_answers_at_work = cors_answers "https://a, https://b ," "https://b" "GET"

stranger : cors (parse_allowed_origins "https://a, https://b ,") "" "OPTIONS" ≡ (none, false)
unfolding middleware_code
stranger = refl

-- A log as a text.
logs_the_request :
    logger {R = ℕ} (λ line log. cat log line) (λ method path log. (404, log)) "GET" "/x" "log: "
    ≡ (404, "log: GET /x")
unfolding logger
logs_the_request = refl

forgets_the_payload : json {Payload = String} (λ status w. status) 201 "made" 0 ≡ 201
unfolding json
forgets_the_payload = refl
