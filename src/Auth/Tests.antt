-- ===== src/Auth/Tests.antt =====
-- A request with a token.
use flowbroker.Prelude.{String, true, Option, none, some, ◌≡◌, ◌⊎◌, refl}
use flowbroker.Json.{str}
use flowbroker.Auth.{
  Visit, TokenData, passes, middle_part, is_missing, is_open, auth_parse, auth_enforce, authorize,
}
use flowbroker.Auth.Passed.{HasToken, Filled, authorize-HasToken}

abbrev admin : TokenData
admin = record { username = some (str "admin"); userid = none; service = some (str "dojot") }

abbrev decode : String → Option TokenData
decode part = some admin

abbrev visit : Visit
visit = record {
  path = "/flow";
  authorization = some "a.b.c";
  user = none;
  userid = none;
  service = none;
}

abbrev named : Visit
named = record visit { user = some (str "admin"); service = some (str "dojot") }

visit-passes : authorize decode visit ≡ passes named
unfolding authorize middle_part auth_parse auth_enforce is_missing
visit-passes = refl

authorize-HasToken_example :
    (is_open "/flow" ≡ true)
    ⊎ ((t : TokenData) × HasToken decode visit t × Filled t.username × Filled t.service)
authorize-HasToken_example = authorize-HasToken decode visit named refl visit-passes

-- A path that has `.png` anywhere needs no token.
abbrev picture : Visit
picture = record visit { path = "/flow/x.png/y"; authorization = none }

picture-passes : authorize decode picture ≡ passes picture
unfolding authorize auth_parse auth_enforce is_open
picture-passes = refl
