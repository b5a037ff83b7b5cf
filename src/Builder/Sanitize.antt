-- ===== src/Builder/Sanitize.antt =====
-- internal/builder/sanitize.go: a VM name made into a DNS-1123 label. A text is the list of its characters;
-- after the replacements all are ASCII, so that bytes and characters agree.
pub mod Label
use Prim.Native.Char.{Char, code}
use Prim.Native.String
use nutanix_vma.Prelude.{
  ℕ, zero, suc, ◌+◌, ◌-◌, ltb, leb, String, Bool, true, false, ◌&&◌, ◌||◌, Option, none, some, List,
  [], ◌∷◌, ◌++◌, map, ◌==◌, if◌then◌else◌, length, decimal,
}

abbrev pub Text : Type 0
Text = List Char

abbrev pub chars : String → Text
chars String.[] = []
chars (String.◌∷◌ c s) = c ∷ chars s

abbrev pub of_chars : Text → String
of_chars [] = String.[]
of_chars (c ∷ s) = String.◌∷◌ c (of_chars s)

abbrev pub max_name_length : ℕ
max_name_length = 63

abbrev pub hyphen : Char
hyphen = "-"

abbrev pub is_hyphen : Char → Bool
is_hyphen c = code c == b'-'

-- `unicode.ToLower`, on the characters whose lower case is in ASCII: the capitals, and the two others.
unfoldable pub to_lower : Char → Char
to_lower c =
    let n = code c in
    if leb b'A' n && leb n b'Z'
    then String.char_at "abcdefghijklmnopqrstuvwxyz" (n - b'A')
    else if n == 0x130
    then "i"
    else if n == 0x212a
    then "k"
    else c

abbrev pub is_alnum : Char → Bool
is_alnum c = leb b'a' (code c) && leb (code c) b'z' || leb b'0' (code c) && leb (code c) b'9'

-- The replacer of separators.
unfoldable pub replace_separator : Char → Char
replace_separator c =
    let n = code c in if n == b' ' || n == b'_' || n == b'(' || n == b')' then hyphen else c

-- `nonAlphanumRegex`
unfoldable pub replace_other : Char → Char
replace_other c = if is_alnum c || is_hyphen c then c else hyphen

-- `multiHyphenRegex`: a run of hyphens becomes one. The flag says that the last character was a hyphen.
unfoldable pub collapse : Bool → Text → Text
collapse after [] = []
collapse after (c ∷ s) =
    let rest = collapse (is_hyphen c) s in if is_hyphen c && after then rest else c ∷ rest

unfoldable pub trim_left : Text → Text
trim_left [] = []
trim_left (c ∷ s) = if is_hyphen c then trim_left s else c ∷ s

abbrev pub is_nil : Text → Bool
is_nil [] = true
is_nil (c ∷ s) = false

unfoldable pub trim_right : Text → Text
trim_right [] = []
trim_right (c ∷ s) = let rest = trim_right s in if is_hyphen c && is_nil rest then [] else c ∷ rest

abbrev pub take : ℕ → Text → Text
take zero s = []
take (suc n) [] = []
take (suc n) (c ∷ s) = c ∷ take n s

unfoldable pub truncate : Text → Text
unfolding trim_right
truncate s = if ltb max_name_length (length s) then trim_right (take max_name_length s) else s

unfoldable pub or_vm : Text → Text
or_vm [] = "v" ∷ "m" ∷ []
or_vm (c ∷ s) = c ∷ s

unfoldable pub replace_chars : Text → Text
unfolding to_lower replace_separator replace_other
replace_chars s = map replace_other (map replace_separator (map to_lower s))

-- `SanitizeName` up to the collisions.
unfoldable pub base_name : Text → Text
unfolding replace_chars collapse trim_left trim_right truncate or_vm
base_name s = or_vm (truncate (trim_right (trim_left (collapse false (replace_chars s)))))

unfoldable pub candidate : Text → ℕ → Text
unfolding trim_right decimal
candidate s i =
    let suffix = hyphen ∷ chars (decimal i) in
    (if ltb max_name_length (length s + length suffix)
      then trim_right (take (max_name_length - length suffix) s)
      else s)
    ++ suffix

-- The loop over `i`; `none` means that the fuel ran out.
unfoldable pub resolve : ℕ → (Text → Bool) → Text → ℕ → Option Text
unfolding candidate
resolve zero existing s i = none
resolve (suc fuel) existing s i =
    let next = resolve fuel existing s (i + 1) in
    if existing (candidate s i) then next else some (candidate s i)

-- `SanitizeName(name, nil)`
unfoldable pub sanitize_name : String → String
unfolding base_name
sanitize_name name = of_chars (base_name (chars name))

-- `SanitizeName(name, existing)`
unfoldable pub sanitize_unique : ℕ → (Text → Bool) → Text → Option Text
unfolding base_name resolve
sanitize_unique fuel existing s =
    let name = base_name s in if existing name then resolve fuel existing name 2 else some name
