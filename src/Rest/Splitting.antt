-- ===== src/Rest/Splitting.antt =====
-- `split(' ')` of the standard library: the first part, and the parts behind it.
use Prim.Native.Char.{code}
use Prim.Native.String.{[] as empty, ◌∷◌ as cons}
use simple_screen_share.Base.{String, List, [], ◌∷◌, ◌==◌, if◌then◌else◌}

unfoldable pub split_space : String → String × List String
split_space empty = (empty, [])
split_space (cons c s) =
    let (first, rest) = split_space s in
    if code c == b' ' then (empty, first ∷ rest) else (cons c first, rest)
