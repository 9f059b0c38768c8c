-- ===== src/Base/Text.antt =====
-- C strings: a `char*` is the memory that it leads to, as bytes.
use Prim.Native.Nat.{ℕ, suc}
use mathlib.Core.List.{List, [], ◌∷◌, ◌++◌}
use mathlib.Core.Option.{Option, none, some}
use lite_cpplib.Base.Tests.{◌==◌, if◌then◌else◌}

-- strlen: `none` where no NUL follows in the memory.
unfoldable pub strlen : List ℕ → Option ℕ
strlen [] = none
strlen (c ∷ cs) =
    let rest = strlen cs in
    if c == 0 then some 0 else elim rest [ none ↦ none | some n ↦ some (suc n) ]

-- string::c_str, for a `string` that is the list of its bytes
abbrev pub c_str : List ℕ → List ℕ
c_str str = str ++ 0 ∷ []
