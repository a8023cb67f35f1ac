-- ===== src/Final/Server/Lookup.antt =====
-- Which servant `get_servant_with_names` finds.
use cse_344_system_programmi.Base.{
  ◌≡◌, refl, ap, true, arith, Option, none, some, List, [], ◌∷◌, ◌++◌, All, Bool-cases, inl, inr,
  ◌&&◌, ◌↔◌,
}
use cse_344_system_programmi.Base.Text.{Str, str_le, str_ge, StrLe, str_ge_iff}
use cse_344_system_programmi.Final.Structs.{Servant}
use cse_344_system_programmi.Final.Server.{get_servant_with_names}

-- The name lies between the first and the last city of the servant.
abbrev pub InRange : Str → Servant → Type 0
InRange name s = StrLe s.lower_city_name name × StrLe name s.upper_city_name

abbrev pub OutOfRange : Str → Servant → Type 0
OutOfRange name s = ¬ InRange name s

range_test_iff :
    (name : Str) (s : Servant)
    → ((str_le s.lower_city_name name && str_ge s.upper_city_name name) ≡ true) ↔ InRange name s
range_test_iff name s = (
  λ h. ground (arith, str_ge_iff s.upper_city_name name),
  λ h. ground (arith, str_ge_iff s.upper_city_name name),
)

-- `none`: no range holds the name. `some s`: the range of `s` does, and no range before it.
abbrev pub Looked : List Servant → Str → Option Servant → Type 0
Looked servants name none = All (OutOfRange name) servants
Looked servants name (some s) =
    (before : List Servant) × (after : List Servant) × (servants ≡ before ++ s ∷ after)
    × All (OutOfRange name) before
    × InRange name s

Looked-skip :
    (t : Servant) (servants : List Servant) (name : Str) (r : Option Servant)
    → OutOfRange name t
    → Looked servants name r
    → Looked (t ∷ servants) name r
Looked-skip t servants name none out h = (out, h)
Looked-skip t servants name (some s) out (before, after, e, rest, inside) =
    (t ∷ before, after, ap (◌∷◌ t) e, (out, rest), inside)

-- The lookup returns the first servant whose range of city names holds the name, and none exactly
-- if there is no such servant.
pub get_servant_with_names-Looked :
    (servants : List Servant) (name : Str)
    → Looked servants name (get_servant_with_names servants name)
unfolding get_servant_with_names
get_servant_with_names-Looked [] name = tt
get_servant_with_names-Looked (s ∷ rest) name =
    elim (Bool-cases (str_le s.lower_city_name name && str_ge s.upper_city_name name)) [
      | inl inside ↦ rw inside ([], rest, refl, tt, (range_test_iff name s).0 inside)
      | inr outside ↦ rw outside (
          Looked-skip s rest name (get_servant_with_names rest name)
            (λ p. ground (arith, (range_test_iff name s).1 p))
            (get_servant_with_names-Looked rest name))
    ]
