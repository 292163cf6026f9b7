-- ===== src/Router/Pattern.antt =====
-- src/eventful/router.py: `_matches_pattern`, and the split of topics into segments.
use Prim.Native.Char.{Char, code}
use eventful.Base.{Bool, true, false, ℕ, String, List, [], ◌∷◌, ◌==◌, ◌||◌, ◌&&◌, str_eq}
use eventful.Base.{if◌then◌else◌}

is_char : ℕ → Char → Bool
is_char n c = code c == n

starts_with_star : String → Bool
unfolding is_char
starts_with_star String.[] = false
starts_with_star (String.◌∷◌ c s) = is_char b'*' c

-- `'*' in topic`
has_star : String → Bool
unfolding is_char
has_star String.[] = false
has_star (String.◌∷◌ c s) = is_char b'*' c || has_star s

-- `'**' in topic`
has_two_stars : String → Bool
unfolding is_char starts_with_star
has_two_stars String.[] = false
has_two_stars (String.◌∷◌ c s) = (is_char b'*' c && starts_with_star s) || has_two_stars s

-- A topic with a wildcard character is kept in the list of patterns.
unfoldable pub is_wildcard : String → Bool
unfolding has_star has_two_stars
is_wildcard topic = has_star topic || has_two_stars topic

abbrev onto_first : Char → List String → List String
onto_first c [] = String.◌∷◌ c String.[] ∷ []
onto_first c (p ∷ ps) = String.◌∷◌ c p ∷ ps

-- `topic.split('.')`
unfoldable pub segments : String → List String
unfolding is_char
segments String.[] = String.[] ∷ []
segments (String.◌∷◌ c s) =
    let rest = segments s in if is_char b'.' c then String.[] ∷ rest else onto_first c rest

-- The loop over both lists of segments; the lists are what `i` and `j` have not yet passed.
unfoldable pub match_segments : List String → List String → Bool
match_segments [] [] = true
match_segments [] (e ∷ es) = false
match_segments (p ∷ ps) [] = false
match_segments (p ∷ ps) (e ∷ es) =
    let rest = match_segments ps es in
    if str_eq p "**"
    then true
    else if str_eq p "*"
    then rest
    else if str_eq p e
    then rest
    else false

-- `_matches_pattern`
unfoldable pub matches_pattern : String → String → Bool
unfolding segments match_segments
matches_pattern event_type pattern =
    if str_eq pattern event_type
    then true
    else match_segments (segments pattern) (segments event_type)
