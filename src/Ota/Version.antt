-- ===== src/Ota/Version.antt =====
-- internal/ota/version.go: release versions, and whether one is an update of another.
pub mod Eligible
mod Tests
use Prim.Native.String.{len, slice}
use monitoreoedgeis.Prelude.{
  ℕ, Bool, true, false, not, ◌&&◌, ◌||◌, Option, none, some, String, str_eq, List, [], ◌∷◌, ltb,
  ◌==◌, if◌then◌else◌, Result, ok, err,
}
use monitoreoedgeis.Prelude.Int.{ℤ, pos, negsuc, ltb_ℤ, eqb_ℤ}

pub record Version : Type 0 where
  pub major : ℤ
  pub minor : ℤ
  pub patch : ℤ

-- `strings.TrimPrefix(_, "v")`, `strings.Split(_, ".")`, `strings.ContainsAny(_, "+-")` and
-- `strconv.Atoi`, `none` where it has an error.
pub record Strings : Type 0 where
  pub trim_v : String → String
  pub split_dots : String → List String
  pub contains_sign : String → Bool
  pub atoi : String → Option ℤ

pub data VersionError : Type 0 where
  not_in_form : String → VersionError
  invalid_component : String → String → VersionError

-- Which of the two versions could not be parsed.
pub data EligibleError : Type 0 where
  current_invalid candidate_invalid : VersionError → EligibleError

module _ (strings : Strings) where
  -- The number of a component, from what `Atoi` returned.
  pub checked : Option ℤ → Option ℤ
  checked none = none
  checked (some n) = if ltb_ℤ n (pos 0) then none else some n

  pub component : String → Option ℤ
  component p =
      if str_eq p "" || (ltb 1 (len p) && str_eq (slice p 0 1) "0") || strings.contains_sign p
      then none
      else checked (strings.atoi p)

  -- The loop over the parts; the first that is invalid is reported.
  pub third : String → ℤ → ℤ → String → Option ℤ → Result VersionError Version
  third s major minor p none = err (invalid_component s p)
  third s major minor p (some patch) = ok (record { major = major; minor = minor; patch = patch })

  pub second : String → ℤ → String → String → Option ℤ → Result VersionError Version
  second s major p q none = err (invalid_component s p)
  second s major p q (some minor) = third s major minor q (component q)

  pub first : String → String → String → String → Option ℤ → Result VersionError Version
  first s p q r none = err (invalid_component s p)
  first s p q r (some major) = second s major q r (component q)

  pub parse_parts : String → List String → Result VersionError Version
  parse_parts s (p ∷ q ∷ r ∷ []) = first s p q r (component p)
  parse_parts s _ = err (not_in_form s)

  -- `ParseVersion`.
  pub parse_version : String → Result VersionError Version
  parse_version s = parse_parts s (strings.split_dots (strings.trim_v s))

pub cmp_int : ℤ → ℤ → ℤ
cmp_int a b = if ltb_ℤ a b then negsuc 0 else if ltb_ℤ b a then pos 1 else pos 0

-- `Version.Compare`.
pub compare_versions : Version → Version → ℤ
compare_versions v other =
    if not (eqb_ℤ v.major other.major)
    then cmp_int v.major other.major
    else if not (eqb_ℤ v.minor other.minor)
    then cmp_int v.minor other.minor
    else cmp_int v.patch other.patch

module _ (strings : Strings) where
  pub judge : Result VersionError Version → Result VersionError Version → Result EligibleError Bool
  judge (err e) _ = err (current_invalid e)
  judge (ok cur) (err e) = err (candidate_invalid e)
  judge (ok cur) (ok cand) = ok (ltb_ℤ (pos 0) (compare_versions cand cur))

  -- `IsUpdateEligible`.
  pub is_update_eligible : String → String → Result EligibleError Bool
  is_update_eligible current candidate =
      judge (parse_version strings current) (parse_version strings candidate)
