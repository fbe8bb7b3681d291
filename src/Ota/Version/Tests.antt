-- ===== src/Ota/Version/Tests.antt =====
-- Three versions, each an update of the one before.
use monitoreoedgeis.Prelude.{
  ◌≡◌, ◌↔◌, refl, true, false, Option, none, some, String, str_eq, List, [], ◌∷◌, if◌then◌else◌, ok,
}
use monitoreoedgeis.Prelude.Int.{ℤ, pos, ltb_ℤ, eqb_ℤ}
use monitoreoedgeis.Ota.Version.{
  Strings, is_update_eligible, parse_version, parse_parts, component, checked, first, second, third,
  judge, compare_versions, cmp_int,
}
use monitoreoedgeis.Ota.Version.Eligible.{AreInOrder, is_update_eligible_order}

demo_split : String → List String
demo_split s =
    if str_eq s "1.2.3"
    then "1" ∷ "2" ∷ "3" ∷ []
    else if str_eq s "1.3.0"
    then "1" ∷ "3" ∷ "0" ∷ []
    else if str_eq s "2.0.0"
    then "2" ∷ "0" ∷ "0" ∷ []
    else s ∷ []

demo_atoi : String → Option ℤ
demo_atoi s =
    if str_eq s "0"
    then some (pos 0)
    else if str_eq s "1"
    then some (pos 1)
    else if str_eq s "2"
    then some (pos 2)
    else if str_eq s "3"
    then some (pos 3)
    else none

abbrev demo : Strings
demo = record {
  trim_v = λ s. s;
  split_dots = demo_split;
  contains_sign = λ s. false;
  atoi = demo_atoi;
}

next_minor : is_update_eligible demo "1.2.3" "1.3.0" ≡ ok true
unfolding is_update_eligible parse_version parse_parts component checked first second third judge
    compare_versions cmp_int ltb_ℤ eqb_ℤ demo_split demo_atoi
next_minor = refl

next_major : is_update_eligible demo "1.3.0" "2.0.0" ≡ ok true
unfolding is_update_eligible parse_version parse_parts component checked first second third judge
    compare_versions cmp_int ltb_ℤ eqb_ℤ demo_split demo_atoi
next_major = refl

is_update_eligible_order_example :
    (is_update_eligible demo "1.2.3" "1.3.0" ≡ ok true)
    ↔ AreInOrder (parse_version demo "1.2.3") (parse_version demo "1.3.0")
is_update_eligible_order_example = is_update_eligible_order demo "1.2.3" "1.3.0"
