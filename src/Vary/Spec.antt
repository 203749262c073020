-- ===== src/Vary/Spec.antt =====
-- What a vary matching string stands for: the names that a Vary header lists, each with the value
-- that the request gave it.
use varnish.Prelude.{
  ℕ, ◌+◌, ◌/◌, ◌%◌, ◌≤◌, ◌<◌, ◌≡◌, Bool, true, false, Option, none, some, List, [], ◌∷◌, ◌++◌, ◌==◌,
  if◌then◌else◌, length, drop, get_elem?, ◌&&◌, ◌||◌,
}
use varnish.Ctype.{is_space}
use varnish.Http.{Http, Text, find_hdr, skip_sp, or_empty}
use varnish.Vary.{trim, header_match, eq_text}

abbrev pub AllSpace : Text → Type 0
AllSpace [] = Unit
AllSpace (c ∷ t) = (is_space c ≡ true) × AllSpace t

-- the test that ends a name
abbrev pub ends_name : ℕ → Bool
ends_name c = is_space c || c == b','

abbrev pub AllName : Text → Type 0
AllName [] = Unit
AllName (c ∷ t) = (ends_name c ≡ false) × ((c == 0) ≡ false) × AllName t

abbrev pub AllNames : List Text → Type 0
AllNames [] = Unit
AllNames (n ∷ ns) = AllName n × AllNames ns

-- A Vary header's value lists these names: each is one or more bytes that are no space, no comma
-- and no NUL, with space round it, and commas stand between them.
pub data Lists : Text → List Text → Type 0 where
  blank : {p : Text} → AllSpace p → Lists p []
  last :
      {p : Text} (sp : Text) (c : ℕ) (n tr : Text)
      → p ≡ sp ++ ((c ∷ n) ++ tr)
      → AllSpace sp
      → AllName (c ∷ n)
      → AllSpace tr
      → Lists p ((c ∷ n) ∷ [])
  more :
      {p : Text} (sp : Text) (c : ℕ) (n tr rest : Text) {ns : List Text}
      → p ≡ sp ++ ((c ∷ n) ++ (tr ++ b',' ∷ rest))
      → AllSpace sp
      → AllName (c ∷ n)
      → AllSpace tr
      → Lists rest ns
      → Lists p ((c ∷ n) ∷ ns)

pub Lists-AllNames : {p : Text} {ns : List Text} → Lists p ns → AllNames ns
Lists-AllNames (blank h) = tt
Lists-AllNames (last sp c n tr e h name t) = (name, tt)
Lists-AllNames (more sp c n tr rest e h name t tail) = (name, Lists-AllNames tail)

-- Every name is shorter than 127 bytes, so that its length with the colon is a positive `char`.
abbrev pub AllShort : List Text → Type 0
AllShort [] = Unit
AllShort (n ∷ ns) = (length n < 127) × AllShort ns

-- What http_GetHdr finds for a name.
abbrev pub found : Http → Text → Option Text
found req n =
    let u = find_hdr req (length n) n in
    if u == 0 then none else some (skip_sp (drop (length n + 1) (or_empty (get_elem? req.hd u))))

-- The value of a header, with no space round it.
abbrev pub map_trim : Option Text → Option Text
map_trim none = none
map_trim (some h) = some (trim h)

abbrev pub value : Http → Text → Option Text
value req n = map_trim (found req n)

abbrev pub Fits : ℕ → Option Text → Type 0
Fits k none = Unit
Fits k (some v) = length v ≤ k

-- The values of the named headers are at most `k` bytes long.
abbrev pub AllFit : ℕ → Http → List Text → Type 0
AllFit k req [] = Unit
AllFit k req (n ∷ ns) = Fits k (value req n) × AllFit k req ns

abbrev pub value_bytes : Option Text → Text
value_bytes none = 255 ∷ 255 ∷ []
value_bytes (some v) = length v / 256 ∷ length v % 256 ∷ v

-- The format that the comment at the top of cache_vary.c describes, less the last NUL.
unfoldable pub encode : Http → List Text → Text
encode req [] = []
encode req (n ∷ ns) = header_match n ++ (value_bytes (value req n) ++ encode req ns)

abbrev pub eq_value : Option Text → Option Text → Bool
eq_value none none = true
eq_value none (some w) = false
eq_value (some v) none = false
eq_value (some v) (some w) = eq_text v w

-- The two requests have the same values for all the names.
unfoldable pub agree : Http → Http → List Text → Bool
agree a b [] = true
agree a b (n ∷ ns) = eq_value (value a n) (value b n) && agree a b ns
