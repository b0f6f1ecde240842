-- ===== src/Base/Text.antt =====
-- Python's `str.strip` on native strings.
use Prim.Native.Nat.{ℕ}
use Prim.Native.Char.{code}
use Prim.Native.String.{String, [], ◌∷◌}
use mathlib.Core.Bool.{Bool, ◌&&◌, ◌||◌}
use hive_os.Base.Tests.{leb, ◌==◌, if◌then◌else◌}

-- The code points for which `str.isspace` holds.
pub is_space : ℕ → Bool
is_space c =
    (leb 9 c && leb c 13)
    || (leb 28 c && leb c 32)
    || c == 133
    || c == 160
    || c == 5760
    || (leb 8192 c && leb c 8202)
    || c == 8232
    || c == 8233
    || c == 8239
    || c == 8287
    || c == 12288

pub lstrip : String → String
unfolding is_space
lstrip [] = []
lstrip (c ∷ s) = if is_space (code c) then lstrip s else c ∷ s

pub rstrip : String → String
unfolding is_space
rstrip [] = []
rstrip (c ∷ s) =
    let rest = rstrip s in
    elim rest [ [] ↦ (if is_space (code c) then [] else c ∷ []) | d ∷ t ↦ c ∷ d ∷ t ]

unfoldable pub strip : String → String
unfolding lstrip rstrip
strip s = rstrip (lstrip s)
