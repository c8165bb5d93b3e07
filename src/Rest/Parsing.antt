-- ===== src/Rest/Parsing.antt =====
-- `parse::<u64>` of the standard library, as `JwtClaims::user_id` of
-- server/src/rest_controller/auth.rs uses it.
use Prim.Native.Char.{code}
use Prim.Native.String.{[] as empty, ◌∷◌ as cons}
use simple_screen_share.Base.{
  ℕ, ◌+◌, ◌-◌, ◌*◌, ◌^◌, String, Option, none, some, ltb, leb, ◌&&◌, ◌==◌, if◌then◌else◌,
}
use simple_screen_share.Rest.{JwtClaims}

-- The digits behind a number that has been read, each in turn.
unfoldable pub parse_digits : ℕ → String → Option ℕ
parse_digits n empty = some n
parse_digits n (cons c s) =
    let next = n * 10 + (code c - b'0') in
    let rest = parse_digits next s in
    if leb b'0' (code c) && leb (code c) b'9' && ltb next (2 ^ 64) then rest else none

unfoldable pub parse_number : String → Option ℕ
unfolding parse_digits
parse_number empty = none
parse_number (cons c s) = parse_digits 0 (cons c s)

-- A plus sign may stand before the digits.
unfoldable pub parse_u64 : String → Option ℕ
unfolding parse_number
parse_u64 empty = none
parse_u64 (cons c s) = if code c == b'+' then parse_number s else parse_number (cons c s)

unfoldable pub user_id : JwtClaims → Option ℕ
unfolding parse_u64
user_id claims = parse_u64 claims.user_id
