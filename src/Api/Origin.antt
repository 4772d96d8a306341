-- ===== src/Api/Origin.antt =====
-- internal/api/server.go: the CORS headers.
use localcloud.Base.{
  if◌then◌else◌, Bytes, codes, contains, ℕ, String, Bool, true, false, ◌&&◌, ◌||◌, Option, none,
  some, List, [], ◌∷◌, ◌==◌,
}
use localcloud.Api.Reply.{status_no_content}

-- The loop over the names, each searched for in the origin.
pub has_any : List String → Bytes → Bool
has_any [] origin = false
has_any (name ∷ names) origin = contains origin (codes name) || has_any names origin

pub is_local_origin : Bytes → Bool
unfolding has_any
is_local_origin origin = has_any ("localhost" ∷ "127.0.0.1" ∷ "::1" ∷ "[::1]" ∷ []) origin

-- What the middleware does before the handler: the headers that it sets, and the status with which
-- it answers by itself.
pub record Cors : Type 0 where
  pub headers : List (String × Bytes)
  pub answered : Option ℕ

abbrev is_nonempty : Bytes → Bool
is_nonempty [] = false
is_nonempty (c ∷ s) = true

pub cors_middleware : Bytes → String → Cors
unfolding is_local_origin
cors_middleware origin method = record {
  headers =
      if is_nonempty origin && is_local_origin origin
      then ("Access-Control-Allow-Origin", origin)
        ∷ ("Access-Control-Allow-Methods", codes "GET, POST, PATCH, DELETE, OPTIONS")
        ∷ ("Access-Control-Allow-Headers", codes "Content-Type")
        ∷ []
      else [];
  answered = if method == "OPTIONS" then some status_no_content else none;
}
