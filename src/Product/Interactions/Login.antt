-- ===== src/Product/Interactions/Login.antt =====
-- A session of `login` is the user's until the service ends.
use ai_cat_controller.Base.{◌≡◌, ◌≢◌, String, some, arith, eq_iff, eq_refl}
use ai_cat_controller.Exec.{ok}
use ai_cat_controller.Repository.Schema.{User}
use ai_cat_controller.Repository.Tables.{Env}
use ai_cat_controller.Product.Interactions.{Sessions, login, resolve_session}

-- After a login the drawn token, which is not empty, stands for the user, and every other token for
-- whom it stood before.
pub resolve_session-login :
    (uuid5 : String → String) (env : Env) (token login_code nickname other : String)
    (s s' : Sessions) (u : User)
    → token ≢ ""
    → other ≢ token
    → login uuid5 env token login_code nickname s ≡ (ok u, s')
    → (resolve_session (some token) s' ≡ ok u.user_id)
      × (resolve_session (some other) s' ≡ resolve_session (some other) s)
unfolding login resolve_session
resolve_session-login uuid5 env token login_code nickname other s s' u full fresh h =
    (ground (arith, eq_iff token "", eq_refl token), ground (arith, eq_iff token other))
