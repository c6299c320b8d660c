-- ===== src/Auth/Tests.antt =====
-- lib/timingSafeEqual.ts on concrete inputs.
use anzdrop.Base.{ℕ, String, List, Option, ◌≡◌, ◌↔◌, true, [], ◌∷◌, some, truthy}
use anzdrop.Auth.TimingSafeEqual.{
  timing_safe_equal, timing_safe_equal_iff, token_matches, token_matches_iff,
}

abbrev one_two : List ℕ
one_two = 1 ∷ 2 ∷ []

abbrev one_three : List ℕ
one_three = 1 ∷ 3 ∷ []

abbrev secret : Option String
secret = some "secret"

timing_safe_equal_iff_example : (timing_safe_equal one_two one_three ≡ true) ↔ (one_two ≡ one_three)
timing_safe_equal_iff_example = timing_safe_equal_iff one_two one_three

token_matches_iff_example :
    (token_matches secret "secret" ≡ true) ↔ ((secret ≡ some "secret") × (truthy "secret" ≡ true))
token_matches_iff_example = token_matches_iff secret "secret"
