-- ===== src/Status/Tests.antt =====
-- Two calls within the cache's time, and one after it.
use ai_cat_controller.Base.{◌≡◌, refl, String, List, [], ◌∷◌}
use ai_cat_controller.Exec.{ok}
use ai_cat_controller.Autonomy.Values.{Value, Members}
use ai_cat_controller.Config.Tests.{settings}
use ai_cat_controller.Status.{Call, cache_time, empty_cache, get_services_status, serve_calls}
use ai_cat_controller.Status.Freshness.{AllFresh, serve_calls-AllFresh}

abbrev answer : String → List Members
answer name = Members.member_of "service_name" (Value.text name) Members.no_members ∷ []

abbrev calls : List Call
calls =
    record { now = 5000; answer = ok (answer "a") }
    ∷ record { now = 5001; answer = ok (answer "b") }
    ∷ record { now = 90000; answer = ok (answer "c") }
    ∷ []

serve_calls-three :
    serve_calls settings calls empty_cache
    ≡ ok (answer "a") ∷ ok (answer "a") ∷ ok (answer "c") ∷ []
unfolding serve_calls get_services_status
serve_calls-three = refl

serve_calls-AllFresh_example :
    AllFresh (cache_time settings) [] calls (serve_calls settings calls empty_cache)
serve_calls-AllFresh_example = serve_calls-AllFresh settings calls
