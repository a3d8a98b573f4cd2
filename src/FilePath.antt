-- ===== src/FilePath.antt =====
-- path/filepath as the program uses it: Join of a root and a name, with the cleaning that Join does,
-- on the elements between slashes. And strings.Trim and strings.ReplaceAll for a slash.
use Prim.Native.Char.{Char, code}
use Prim.Native.String.{String}
use containerdosstore.Prelude.{Bool, false, List, [], ◌∷◌, ◌<>◌, ◌==◌, nat_eq, if◌then◌else◌, ◌&&◌}

abbrev pub is_slash : Char → Bool
is_slash c = nat_eq (code c) b'/'

-- The first element takes one more character.
push_char : Char → List String → List String
push_char c [] = String.◌∷◌ c String.[] ∷ []
push_char c (e ∷ es) = String.◌∷◌ c e ∷ es

-- strings.Split(s, "/")
unfoldable pub split : String → List String
unfolding push_char
split String.[] = "" ∷ []
split (String.◌∷◌ c s) = let rest = split s in if is_slash c then "" ∷ rest else push_char c rest

-- One element onto the elements kept so far, the last one first.
step : Bool → List String → String → List String
step rooted [] e = if e == ".." then (if rooted then [] else e ∷ []) else e ∷ []
step rooted (top ∷ kept) e =
    if e == ".." then (if top == ".." then e ∷ top ∷ kept else kept) else e ∷ top ∷ kept

reduce : Bool → List String → List String → List String
unfolding step
reduce rooted kept [] = kept
reduce rooted kept (e ∷ es) =
    reduce rooted (if e == "" then kept else if e == "." then kept else step rooted kept e) es

-- The kept elements, the last one first, joined by slashes in front of what stands behind them.
joined : List String → String → String
joined [] behind = behind
joined (e ∷ es) behind = joined es (e <> (if behind == "" then "" else "/" <> behind))

is_rooted : String → Bool
is_rooted String.[] = false
is_rooted (String.◌∷◌ c s) = is_slash c

-- filepath.Clean
unfoldable pub clean : String → String
unfolding split reduce joined is_rooted
clean path =
    let body = joined (reduce (is_rooted path) [] (split path)) "" in
    if is_rooted path then "/" <> body else if body == "" then "." else body

-- filepath.Join of two elements
unfoldable pub join : String → String → String
unfolding clean
join a b =
    if a == ""
    then (if b == "" then "" else clean b)
    else if b == ""
    then clean a
    else clean (a <> ("/" <> b))

-- strings.TrimLeft(s, "/") and strings.TrimRight(s, "/")
trim_left : String → String
trim_left String.[] = ""
trim_left (String.◌∷◌ c s) = let rest = trim_left s in if is_slash c then rest else String.◌∷◌ c s

trim_right : String → String
trim_right String.[] = ""
trim_right (String.◌∷◌ c s) =
    let rest = trim_right s in if is_slash c && rest == "" then "" else String.◌∷◌ c rest

-- strings.Trim(s, "/")
unfoldable pub trim : String → String
unfolding trim_left trim_right
trim s = trim_right (trim_left s)

-- strings.ReplaceAll(s, "/", "-")
unfoldable pub dashed : String → String
dashed String.[] = ""
dashed (String.◌∷◌ c s) =
    let rest = dashed s in if is_slash c then "-" <> rest else String.◌∷◌ c rest
