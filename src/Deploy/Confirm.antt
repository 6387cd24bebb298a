-- ===== src/Deploy/Confirm.antt =====
-- deploy/util.go: `askForConfirmation` with `containsString`, and `GetGOPATHs`. What `fmt.Scanln` reads is an
-- argument.
use thinkgo.Base.{
  Bool, true, false, if◌then◌else◌, Bytes, List, [], ◌∷◌, codes, equal, split_at, slashes,
}

-- A call of `fmt.Scanln`: it fails on an empty line, for instance.
pub data Scanned : Type 0 where
  scanned : Bytes → Scanned
  scan_error : Scanned

-- The answer, the end of the process by `log.Fatal`, or that more is to be read
pub data Answer : Type 0 where
  answer : Bool → Answer
  fatal waiting : Answer

-- `containsString`
unfoldable pub contains_string : List Bytes → Bytes → Bool
unfolding equal
contains_string [] element = false
contains_string (e ∷ es) element = if equal e element then true else contains_string es element

abbrev pub okay_responses : List Bytes
okay_responses = codes "y" ∷ codes "Y" ∷ codes "yes" ∷ codes "Yes" ∷ codes "YES" ∷ []

abbrev pub nokay_responses : List Bytes
nokay_responses = codes "n" ∷ codes "N" ∷ codes "no" ∷ codes "No" ∷ codes "NO" ∷ []

-- `askForConfirmation`
unfoldable pub ask_for_confirmation : List Scanned → Answer
unfolding contains_string
ask_for_confirmation [] = waiting
ask_for_confirmation (scan_error ∷ rest) = fatal
ask_for_confirmation (scanned response ∷ rest) =
    let again = ask_for_confirmation rest in
    if contains_string okay_responses response
    then answer true
    else if contains_string nokay_responses response
    then answer false
    else again

-- `GetGOPATHs`, on the value of the variable; the flag says that the system is Windows.
unfoldable pub get_gopaths : Bool → Bytes → List Bytes
unfolding slashes split_at
get_gopaths true gopath = split_at b';' (slashes gopath)
get_gopaths false gopath = split_at b':' gopath
