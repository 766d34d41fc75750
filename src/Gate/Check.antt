-- ===== src/Gate/Check.antt =====
-- A check of the cutover gate and the ways the gate reads its evidence. Of a check's entry in the
-- report the name and the verdict are modelled; the other fields copy the evidence.
use moonproj.Base.{String, ◌≡◌, Bool, true, ok, ◌>>=◌, Dict, List, [], ◌∷◌, all, if◌then◌else◌}
use moonproj.Evidence.{Checked, Entry, is_file, load_object}

pub record Check : Type 0 where
  pub name : String
  pub passed : Bool

-- `all(bool(check.get("passed")) for check in checks)`
abbrev pub all_passed : List Check → Bool
all_passed = all (λ c. c.passed)

abbrev pub verdict : String → Bool → List Check
verdict name passed = record { name = name; passed = passed } ∷ []

-- Evidence that must be there: `load` raises when it is not.
unfoldable pub required : String → Entry → (Dict → Checked Bool) → Checked (List Check)
required name entry test = do d ← load_object entry; passed ← test d; ok (verdict name passed)

-- Evidence that is checked when the file is there.
unfoldable pub optional : String → Entry → (Dict → Checked Bool) → Checked (List Check)
unfolding required
optional name entry test = if is_file entry then required name entry test else ok []

-- What a step that ran and passed has shown.
abbrev pub Passes : Checked (List Check) → Type 0
Passes m = (cs : List Check) × (m ≡ ok cs) × (all_passed cs ≡ true)
